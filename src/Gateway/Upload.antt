-- ===== src/Gateway/Upload.antt =====
-- services/gateway/srv/upload.go: the pre-signed upload URL. The COS client is a parameter, none if it
-- is not configured; the day and the UUID of an object are arguments.
use Prim.Native.String.{◌++◌ as append}
use feeds.Prelude.{String, ite, Option, none, some, message, Result, text_dec}
use feeds.Gateway.Http.{Call, Reply, failed, Body, answer}

unfoldable pub object_key : String → String → String → String
object_key day uuid ext =
    append "uploads/" (append day (append "/" (append uuid (ite (text_dec ext "") ".jpg" ext))))

unfoldable pub handle_get_token : Option (String → Result String) → String → String → Call → Reply
unfolding object_key
handle_get_token none day uuid c = failed 501 (message "COS not configured")
handle_get_token (some presigned_url) day uuid c =
    let key = object_key day uuid (c.request.query "ext") in
    answer (Body.upload_token key) (presigned_url key)
