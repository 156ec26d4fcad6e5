-- ===== src/Events/Writers.antt =====
-- What reaches Kafka through the writers of the topics.
use mathlib.Core.List.{lookup}
use feeds.Prelude.{
  ◌≡◌, refl, String, Bool, true, false, some, List, [], ◌∷◌, arith, text_dec, Option-cases, inl,
  inr, ite, if◌then◌else◌,
}
use feeds.Prelude.Maps.{insert, lookup-insert, IsMap, insert-IsMap}
use feeds.Feed.Service.{Event}
use feeds.Events.{
  Writer, Kafka, KafkaDispatcher, Run, returned, panicked, new_writer, writer_for, dispatch, close,
}

-- A topic has one writer at most, which is its own, for the brokers of the dispatcher.
pub record IsOpen (d : KafkaDispatcher) (writers : List (String × Writer)) : Type 0 where
  pub writers-some : d.writers ≡ some writers
  pub IsMap-writers : IsMap text_dec writers
  pub own :
      (topic : String) (w : Writer)
      → lookup text_dec topic writers ≡ some w
      → w ≡ new_writer d.brokers topic

-- Whether the topic is that of one of the events.
abbrev pub is_topic_of : String → List Event → Bool
is_topic_of topic [] = false
is_topic_of topic (e ∷ events) = ite (text_dec topic e.topic) true (is_topic_of topic events)

module _ (kafka : Kafka) (headers : Event → List (String × String)) where
  -- The events one after the other.
  pub dispatch_all :
      kafka.Store → KafkaDispatcher → List Event → Run (kafka.Store × KafkaDispatcher)
  dispatch_all store d [] = returned (store, d)
  dispatch_all store d (e ∷ events) = elim (dispatch kafka (headers e) store d e) [
    | panicked ↦ panicked
    | returned (store', d', failed) ↦ dispatch_all store' d' events
  ]

  -- Each event written by the writer of its topic.
  pub write_all : List String → kafka.Store → List Event → kafka.Store
  write_all brokers store [] = store
  write_all brokers store (e ∷ events) =
      write_all brokers
        (kafka.write_messages store (new_writer brokers e.topic)
          (record { key = e.key; value = e.body; headers = headers e })).0
        events

  step_writers :
      (d : KafkaDispatcher) (writers : List (String × Writer)) (topic : String)
      → IsOpen d writers
      → (writers' : List (String × Writer)) × IsOpen (record d { writers = some writers' }) writers'
        × (writer_for d topic
            ≡ returned (record d { writers = some writers' }, new_writer d.brokers topic))
        × ((t : String)
            → lookup text_dec t writers'
              ≡ ite
                  (text_dec t topic)
                  (some (new_writer d.brokers topic))
                  (lookup text_dec t writers))
  unfolding writer_for
  step_writers d writers topic h = elim (Option-cases (lookup text_dec topic writers)) [
    | inl new ↦
        let w = new_writer d.brokers topic in
        let at = λ (t : String). lookup-insert text_dec t topic w writers in
        (
          insert text_dec topic w writers,
          record {
            writers-some = refl;
            IsMap-writers = insert-IsMap text_dec topic w writers h.IsMap-writers;
            own = λ t v e. ground (arith, e, at t, h.own t v);
          },
          rw (h.writers-some, new, writer_for) refl,
          at,
        )
    | inr (w, old) ↦ (
      writers,
      record { writers-some = refl; IsMap-writers = h.IsMap-writers; own = h.own },
      ground (arith, h.writers-some, old, h.own topic w old),
      λ t. ground (arith, old, h.own topic w old),
    )
  ]

  -- The writers after the events: those from before, and one for each topic of the events.
  Served : KafkaDispatcher → List (String × Writer) → kafka.Store → List Event → Type 0
  Served d writers store events =
      (writers' : List (String × Writer)) × IsOpen (record d { writers = some writers' }) writers'
      × (dispatch_all store d events
          ≡ returned (write_all d.brokers store events, record d { writers = some writers' }))
      × ((t : String)
          → lookup text_dec t writers' ≡ (
              if is_topic_of t events
              then some (new_writer d.brokers t)
              else lookup text_dec t writers))

  serve_all :
      (store : kafka.Store) (d : KafkaDispatcher) (writers : List (String × Writer))
      (events : List Event)
      → IsOpen d writers
      → Served d writers store events
  unfolding Served dispatch_all write_all dispatch
  serve_all store d writers [] h = (
    writers,
    record { writers-some = refl; IsMap-writers = h.IsMap-writers; own = h.own },
    ground (arith, h.writers-some),
    λ t. refl,
  )
  serve_all store d writers (e ∷ events) h =
      let (writers', h', run, at) = step_writers d writers e.topic h in
      let d' : KafkaDispatcher = record d { writers = some writers' } in
      let store' =
        (kafka.write_messages store (new_writer d.brokers e.topic)
          (record { key = e.key; value = e.body; headers = headers e })).0 in
      let (writers'', h'', runs, ats) = serve_all store' d' writers' events h' in
      (writers'', h'', rw (run, dispatch, dispatch_all) runs, λ t. ground (arith, at t, ats t))

  abbrev fresh : List String → KafkaDispatcher
  fresh brokers = record { brokers = brokers; writers = some [] }

-- After `Close`, every dispatch of an event panics.
pub dispatch_after_close :
    (kafka : Kafka) (in_range : List (String × Writer) → List (String × Writer))
    (store store' : kafka.Store) (d : KafkaDispatcher) (headers : List (String × String))
    (e : Event)
    → dispatch kafka headers store' (close kafka in_range store d).1 e ≡ panicked
unfolding dispatch writer_for close
dispatch_after_close kafka in_range store store' d headers e = elim (Option-cases d.writers) [
  | inl closed ↦ ground (arith, closed)
  | inr (writers, opened) ↦ ground (arith, opened)
]
