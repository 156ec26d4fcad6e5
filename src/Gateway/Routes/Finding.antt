-- ===== src/Gateway/Routes/Finding.antt =====
-- The table of the routes: no two patterns conflict, and which requests reach which handler.
use feeds.Prelude.{
  ◌≡◌, ap, sym, ◌∙◌, String, true, none, some, Option, List, [], ◌∷◌, arith, text_dec,
}
use feeds.Gateway.Mux.{lit, param, Pattern, Found, match, serves, find}
use feeds.Gateway.Mux.Best.{find-Fits}
use feeds.Gateway.Routes.Interface.{pattern_of, routes-pattern_of}
use feeds.Gateway.Routes.{Endpoint, delete_feed, delete_comment, routes}

-- The collection whose item an endpoint deletes for its author.
unfoldable pub deletes_in : Endpoint → Option String
deletes_in delete_feed = some "feeds"
deletes_in delete_comment = some "comments"
deletes_in e = none

abbrev delete_pattern : String → Pattern
delete_pattern collection = record {
  method = "DELETE";
  segments = lit collection ∷ param "id" ∷ [];
}

-- An endpoint that deletes has the pattern of a deletion.
deletes-pattern :
    (e : Endpoint) (collection : String)
    → deletes_in e ≡ some collection
    → pattern_of e ≡ delete_pattern collection
unfolding deletes_in pattern_of
deletes-pattern Endpoint.get_token c h = cc h
deletes-pattern Endpoint.register c h = cc h
deletes-pattern Endpoint.login c h = cc h
deletes-pattern Endpoint.get_user_info c h = cc h
deletes-pattern Endpoint.unregister c h = cc h
deletes-pattern Endpoint.follow c h = cc h
deletes-pattern Endpoint.unfollow c h = cc h
deletes-pattern Endpoint.get_followers c h = cc h
deletes-pattern Endpoint.get_following c h = cc h
deletes-pattern Endpoint.is_following c h = cc h
deletes-pattern Endpoint.post_feed c h = cc h
deletes-pattern Endpoint.get_feed c h = cc h
deletes-pattern Endpoint.list_feeds c h = cc h
deletes-pattern Endpoint.delete_feed c h = ground (arith, h)
deletes-pattern Endpoint.get_timeline c h = cc h
deletes-pattern Endpoint.like c h = cc h
deletes-pattern Endpoint.unlike c h = cc h
deletes-pattern Endpoint.is_liked c h = cc h
deletes-pattern Endpoint.count_likes c h = cc h
deletes-pattern Endpoint.batch_count_likes c h = cc h
deletes-pattern Endpoint.create_comment c h = cc h
deletes-pattern Endpoint.list_comments c h = cc h
deletes-pattern Endpoint.delete_comment c h = ground (arith, h)
deletes-pattern Endpoint.bookmark c h = cc h
deletes-pattern Endpoint.unbookmark c h = cc h
deletes-pattern Endpoint.is_bookmarked c h = cc h

match-delete :
    (collection : String) (parts : List String) (values : List (String × String))
    → match (delete_pattern collection).segments parts ≡ some values
    → (id : String) × (parts ≡ collection ∷ id ∷ []) × (values ≡ ("id", id) ∷ [])
unfolding match
match-delete collection [] values h = cc h
match-delete collection (a ∷ []) values h = ground (arith, h)
match-delete collection (a ∷ (b ∷ [])) values h = (b, ground (arith, h), ground (arith, h))
match-delete collection (a ∷ (b ∷ (c ∷ parts))) values h = ground (arith, h)

serves-delete : (asked : String) → serves "DELETE" asked ≡ true → asked ≡ "DELETE"
unfolding serves text_dec
serves-delete asked h = ground (arith, h)

-- A request reaches the handler of a deletion only as DELETE on the path of the item.
pub find-delete :
    (collection method : String) (parts : List String) (f : Found Endpoint)
    → find method parts routes ≡ some f
    → deletes_in f.route.handler ≡ some collection
    → (method ≡ "DELETE")
      × (id : String) × (parts ≡ collection ∷ id ∷ [])
      × (f.values ≡ ("id", id) ∷ [])
find-delete collection method parts f h e =
    let fits = find-Fits method parts routes f h in
    let p = routes-pattern_of f.route fits.among ∙ deletes-pattern f.route.handler collection e in
    let (id, on_path, values) =
      match-delete collection parts f.values
        (sym (ap (λ q. match (Pattern.segments q) parts) p) ∙ fits.matched) in
    (
      serves-delete method (sym (ap (λ q. serves (Pattern.method q) method) p) ∙ fits.served),
      id,
      on_path,
      values,
    )
