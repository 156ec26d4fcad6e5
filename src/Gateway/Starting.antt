-- ===== src/Gateway/Starting.antt =====
-- services/gateway: what main.go builds before it listens: the COS client and the three gRPC clients.
-- What OpenTelemetry, net/url and grpc.NewClient answer is an argument.
use feeds.Prelude.{
  ◌≡◌, ◌⊎◌, refl, String, ite, Option, none, some, Error, message, wrapped, Result, ok, err, ◌>>=◌,
  text_dec, inl, inr, if_pos, if_neg,
}
use feeds.Auth.{Env}
use feeds.Config.{CosConfig, get_env}
use feeds.Gateway.Http.{Call, failed}
use feeds.Gateway.Upload.{handle_get_token}

-- `NewUploadHandler`: a pre-signing client, or none if there is no bucket or its URL does not parse.
unfoldable pub new_upload_handler :
    {Url : Type 0}
    → (String → Result Url)
    → (Url → String → String → String → Result String)
    → CosConfig
    → Option (String → Result String)
new_upload_handler parse presign cfg =
    ite (text_dec cfg.bucket_url "") none (elim (parse cfg.bucket_url) [
      | err e ↦ none
      | ok url ↦ some (presign url cfg.secret_id cfg.secret_key)
    ])

-- `grpc.NewClient` at the address of the environment; `log.Fatalf` ends the process.
abbrev dial_service : (String → Option Error) → Env → String → String → String → Result String
dial_service new_client env key fallback fatal =
    let addr = get_env env key fallback in
    elim (new_client addr) [ none ↦ ok addr | some e ↦ err (wrapped fatal e) ]

-- `NewUserService`
unfoldable pub new_user_service : (String → Option Error) → Env → Result String
unfolding get_env
new_user_service new_client env =
    dial_service new_client env "USER_SERVICE_ADDR" "localhost:9003"
      "failed to create grpc client: "

-- `NewFeedService`
unfoldable pub new_feed_service : (String → Option Error) → Env → Result String
unfolding get_env
new_feed_service new_client env =
    dial_service new_client env "FEED_SERVICE_ADDR" "localhost:9001" "feed grpc: "

-- `NewInteractionService`
unfoldable pub new_interaction_service : (String → Option Error) → Env → Result String
unfolding get_env
new_interaction_service new_client env =
    dial_service new_client env "INTERACTION_SERVICE_ADDR" "localhost:9005" "interaction grpc: "

-- `log.Fatalf` with its prefix.
abbrev fatal : String → Option Error → Result (Unit {0})
fatal prefix none = ok tt
fatal prefix (some e) = err (wrapped prefix e)

-- The addresses of the services that the gateway talks to.
pub record Services : Type 0 where
  pub user : String
  pub feed : String
  pub interaction : String

-- `main` up to the listener, which answers last.
unfoldable pub start_gateway :
    Option Error → (String → Option Error) → Env → Option Error → Result Services
start_gateway telemetry new_client env listen = do
  _ ← fatal "telemetry: " telemetry
  user ← new_user_service new_client env
  feed ← new_feed_service new_client env
  interaction ← new_interaction_service new_client env
  elim listen [
    | none ↦ ok (record { user = user; feed = feed; interaction = interaction })
    | some e ↦ err e
  ]

-- The upload token is unavailable whenever the bucket's URL is missing or does not parse, and then for
-- every request.
get_token_unconfigured :
    {Url : Type 0} (parse : String → Result Url)
    (presign : Url → String → String → String → Result String) (cfg : CosConfig) (e : Error)
    (day uuid : String) (c : Call)
    → (cfg.bucket_url ≡ "") ⊎ (parse cfg.bucket_url ≡ err e)
    → handle_get_token (new_upload_handler parse presign cfg) day uuid c
      ≡ failed 501 (message "COS not configured")
unfolding new_upload_handler handle_get_token
get_token_unconfigured parse presign cfg e day uuid c (inl empty) = rw (if_pos _ empty) refl
get_token_unconfigured parse presign cfg e day uuid c (inr unparsed) =
    elim (text_dec cfg.bucket_url "") [
      | yes p ↦ rw (if_pos _ p) refl
      | no n ↦ rw (if_neg _ n, unparsed) refl
    ]
