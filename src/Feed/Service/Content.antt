-- ===== src/Feed/Service/Content.antt =====
-- The content that the service answers with, against the rows of the posts table.
use feeds.Prelude.{
  Error, err, ◌⊎◌, ◌≡◌, ◌≢◌, refl, sym, ◌∙◌, inl, inr, ap, String, none, some, List, [], ◌∷◌, ◌++◌,
  arith, ok, Outcome, answered, refused, lost, length, ◌-◌, Result-cases, Option-cases, true,
}
use feeds.Feed.Model.{
  Time, Feed, PbBlock, GetFeedResp, blocks_from_proto, to_resp, unix, blocks_to_proto-from_proto,
  blocks_to_proto,
}
use feeds.Feed.Repo.{Posts, create, find_by_id, select_post, delete, delete_posts}
use feeds.Feed.Repo.Rows.{IsKeyed, delete_posts_absent}
use feeds.Feed.Cache.{
  PostCache, CacheLaws, Json, RoundTrips, post_cache_key, post_cache_key-injective,
}
use feeds.Feed.Service.{
  FeedState, post_feed, get_post_content, load_post, delete_feed, cache_post, post_cache_ttl,
}

module _ {Score Text : Type 0} (cache : PostCache Score Text) (laws : CacheLaws cache)
    (json : Json Text) (round_trips : RoundTrips json) where
  -- Whatever stands under a post's key and can be decoded is the content of the post's row.
  unfoldable pub IsCoherent : Posts → cache.Store → Type 0
  IsCoherent posts store =
      (id : String) (text : Text) (r : GetFeedResp)
      → laws.stored store (post_cache_key id) ≡ some text
      → json.decode_post text ≡ some r
      → (f : Feed) × (select_post id posts ≡ some f) × (r ≡ to_resp f)

  cache_post-IsCoherent :
      (posts : Posts) (store : cache.Store) (id : String) (f : Feed)
      → select_post id posts ≡ some f
      → IsCoherent posts store
      → IsCoherent posts (cache_post cache json store (to_resp f) id)
  unfolding IsCoherent
  cache_post-IsCoherent posts store id f row v j text r held decoded =
      elim (laws.set-stored store (post_cache_key id) (json.encode_post (to_resp f)) post_cache_ttl
        (post_cache_key j)) [
          | inl same ↦ v j text r (sym same ∙ held) decoded
          | inr (key, put) ↦
              let e : j ≡ id = post_cache_key-injective j id key in
              (
                f,
                ground (arith, e, row),
                ground (arith, put, held, decoded, round_trips (to_resp f)),
              )
        ]

  find_by_id-row :
      (outcome : Outcome) (id : String) (posts : Posts) (f : Feed)
      → find_by_id outcome id posts ≡ ok f
      → select_post id posts ≡ some f
  unfolding find_by_id
  find_by_id-row outcome id posts f h = ground arith

  load_post-IsCoherent :
      (outcome : Outcome) (posts : Posts) (store : cache.Store) (id : String)
      → IsCoherent posts store
      → IsCoherent posts (load_post cache json outcome posts store id).0
        × ((r : GetFeedResp)
            → (load_post cache json outcome posts store id).1 ≡ ok r
            → (f : Feed) × (select_post id posts ≡ some f) × (r ≡ to_resp f))
  unfolding load_post
  load_post-IsCoherent outcome posts store id v =
      elim (Result-cases (find_by_id outcome id posts)) [
        | inl (f, e) ↦
            let row = find_by_id-row outcome id posts f e in
            rw (e, load_post)
              (cache_post-IsCoherent posts store id f row v, λ r h. (f, row, ground arith))
        | inr (x, e) ↦ rw (e, load_post) (v, λ r h. cc)
      ]

  -- Over a coherent cache an answer of `GetFeed` is the content of the row, whether it comes from
  -- the cache or from the table, and the cache stays coherent on every path.
  pub get_post_content-IsCoherent :
      (outcome : Outcome) (posts : Posts) (store : cache.Store) (id : String)
      → IsCoherent posts store
      → IsCoherent posts (get_post_content cache json outcome posts store id).0
        × ((r : GetFeedResp)
            → (get_post_content cache json outcome posts store id).1 ≡ ok r
            → (f : Feed) × (select_post id posts ≡ some f) × (r ≡ to_resp f))
  unfolding get_post_content IsCoherent
  get_post_content-IsCoherent outcome posts store id v =
      elim (Result-cases (cache.get store (post_cache_key id))) [
        | inl (text, got) ↦ elim (Option-cases (json.decode_post text)) [
          | inl unread ↦
              rw (got, get_post_content, unread) (load_post-IsCoherent outcome posts store id v)
          | inr (r, decoded) ↦
              let (f, row, e) =
                v id text r (laws.get-stored store (post_cache_key id) text got) decoded in
              rw (got, get_post_content, decoded) (v, λ q h. (f, row, ground (arith, e, h)))
        ]
        | inr (x, missed) ↦
            rw (missed, get_post_content) (load_post-IsCoherent outcome posts store id v)
      ]

  -- The content of a post cannot be had only if it has no row or the database does not answer.
  pub get_post_content-failed :
      (outcome : Outcome) (posts : Posts) (store : cache.Store) (id : String) (e : Error)
      → (get_post_content cache json outcome posts store id).1 ≡ err e
      → (select_post id posts ≡ none) ⊎ (outcome ≢ answered)
  unfolding get_post_content load_post find_by_id
  get_post_content-failed (refused x) posts store id e h = inr (λ o. cc)
  get_post_content-failed (lost x) posts store id e h = inr (λ o. cc)
  get_post_content-failed answered posts store id e h = elim (Option-cases (select_post id posts)) [
    | inl absent ↦ inl absent
    | inr (f, row) ↦ absurd (ground (arith, h, row))
  ]

  insert_post-select :
      (posts : Posts) (g f : Feed) (id : String)
      → select_post id posts ≡ some f
      → select_post id (posts ++ (g ∷ [])) ≡ some f
  unfolding select_post
  insert_post-select [] g f id h = cc
  insert_post-select (x ∷ posts) g f id h = ground (arith, insert_post-select posts g f id)

  insert_post-select_new :
      (posts : Posts) (g : Feed)
      → select_post g.id posts ≡ none
      → select_post g.id (posts ++ (g ∷ [])) ≡ some g
  unfolding select_post
  insert_post-select_new [] g h = ground arith
  insert_post-select_new (x ∷ posts) g h = ground (arith, insert_post-select_new posts g)

  IsCoherent-insert :
      (posts : Posts) (store : cache.Store) (g : Feed)
      → IsCoherent posts store
      → IsCoherent (posts ++ (g ∷ [])) store
  unfolding IsCoherent
  IsCoherent-insert posts store g v id text r held decoded =
      let (f, row, e) = v id text r held decoded in (f, insert_post-select posts g f id row, e)

  content_of_row :
      (r : GetFeedResp) (f g : Feed) (pbs : List PbBlock)
      → r ≡ to_resp f
      → f ≡ g
      → g.blocks ≡ blocks_from_proto pbs
      → (id : String) → g.id ≡ id
      → (r.id ≡ id) × (r.author_id ≡ g.author_id) × (r.blocks ≡ pbs)
  unfolding to_resp
  content_of_row r f g pbs e same given id named = (
    ground (arith, e, same, named),
    ground (arith, e, same),
    ap (λ (q : GetFeedResp). q.blocks) (e ∙ ap to_resp same)
        ∙ ap blocks_to_proto given
        ∙ blocks_to_proto-from_proto pbs,
  )

  -- Over a coherent cache, for a new id that no row has: a post that `PostFeed` has answered for
  -- leaves the cache coherent; any answer of `GetFeed` for it has that author and those blocks;
  -- and exactly one event has gone out, under its id.
  pub post_feed-get_post_content :
      (posting reading : Outcome) (id : String) (now : Time) (s : FeedState cache.Store)
      (author_id : String) (pbs : List PbBlock)
      → IsCoherent s.posts s.store
      → select_post id s.posts ≡ none
      → (post_feed cache json posting id now s author_id pbs).1 ≡ ok id
      → let s' = (post_feed cache json posting id now s author_id pbs).0 in
        IsCoherent s'.posts s'.store
        × ((r : GetFeedResp)
            → (get_post_content cache json reading s'.posts s'.store id).1 ≡ ok r
            → (r.id ≡ id) × (r.author_id ≡ author_id) × (r.blocks ≡ pbs))
        × (s'.events
            ≡ s.events
              ++ (record {
                topic = "post.created";
                key = id;
                body = json.encode_created id author_id (unix now);
              }
                  ∷ []))
  unfolding post_feed create
  post_feed-get_post_content answered reading id now s author_id pbs v fresh done =
      let g : Feed = record {
        id = id;
        author_id = author_id;
        blocks = blocks_from_proto pbs;
        created_at = now;
        updated_at = now;
      } in
      let posts = s.posts ++ (g ∷ []) in
      let row = insert_post-select_new s.posts g fresh in
      let store = cache_post cache json s.store (to_resp g) id in
      let coherent =
        cache_post-IsCoherent posts s.store id g row (IsCoherent-insert s.posts s.store g v) in
      (
        coherent,
        λ r h.
            let (f, found, e) =
              (get_post_content-IsCoherent reading posts store id coherent).1 r h in
            content_of_row r f g pbs e (cc (found, row)) refl id refl,
        refl,
      )
  post_feed-get_post_content (refused e) reading id now s author_id pbs v fresh done = cc
  post_feed-get_post_content (lost e) reading id now s author_id pbs v fresh done = cc

delete_posts-select :
    (id author_id : String) (posts : Posts)
    → IsKeyed posts
    → length posts - length (delete_posts id author_id posts) ≢ 0
    → select_post id (delete_posts id author_id posts) ≡ none
unfolding delete_posts select_post
delete_posts-select id author_id [] keyed h = refl
delete_posts-select id author_id (f ∷ posts) keyed h =
    ground (
      arith,
      delete_posts_absent id author_id posts,
      delete_posts-select id author_id posts keyed.1,
    )

module _ {Score Text : Type 0} (cache : PostCache Score Text) (json : Json Text) where
  -- Over posts whose ids are distinct: `DeleteFeed` does not touch the cache, so after it has
  -- answered success the row is gone, and while the cached copy can be read and decoded `GetFeed`
  -- still answers with it.
  pub delete_feed_still_served :
      (deleting reading : Outcome) (s : FeedState cache.Store) (id author_id : String) (text : Text)
      (r : GetFeedResp)
      → IsKeyed s.posts
      → cache.get s.store (post_cache_key id) ≡ ok text
      → json.decode_post text ≡ some r
      → (delete_feed cache json deleting s id author_id).1 ≡ ok true
      → let s' = (delete_feed cache json deleting s id author_id).0 in
        (select_post id s'.posts ≡ none)
        × (get_post_content cache json reading s'.posts s'.store id ≡ (s'.store, ok r))
  unfolding delete_feed delete get_post_content
  delete_feed_still_served answered reading s id author_id text r keyed got decoded done = (
    ground (arith, done, delete_posts-select id author_id s.posts keyed),
    ground (arith, got, decoded),
  )
  delete_feed_still_served (refused e) reading s id author_id text r keyed got decoded done = cc
  delete_feed_still_served (lost e) reading s id author_id text r keyed got decoded done = cc
