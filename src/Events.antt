-- ===== src/Events.antt =====
-- pkg/events: the dispatchers of domain events. The Kafka client is a parameter, with a state of its
-- own; the headers of the trace that a message carries are arguments. Logs and spans are left out.
pub mod Writers
use Prim.Native.String.{◌++◌ as append}
use mathlib.Core.List.{lookup}
use feeds.Prelude.{
  ℕ, ◌*◌, String, Bool, true, Option, none, some, List, [], ◌∷◌, Error, wrapped, Result, ok, err,
  text_dec,
}
use feeds.Prelude.Maps.{insert}
use feeds.Feed.Service.{Event}

-- `kafka.Writer` with the fields that the source sets. The durations are nanoseconds.
pub record Writer : Type 0 where
  pub addr : List String
  pub topic : String
  pub batch_size : ℕ
  pub batch_timeout : ℕ
  pub allow_auto_topic_creation : Bool

pub record Message : Type 0 where
  pub key : String
  pub value : String
  pub headers : List (String × String)

pub record Kafka : Type 1 where
  pub Store : Type 0
  pub dial : Store → String → Store × Option Error
  pub write_messages : Store → Writer → Message → Store × Option Error
  pub close : Store → Writer → Store × Option Error

-- The map of the writers is nil once the dispatcher is closed.
pub record KafkaDispatcher : Type 0 where
  pub brokers : List String
  pub writers : Option (List (String × Writer))

-- A call returns, or it panics.
pub data Run {ℓ} (A : Type ℓ) : Type ℓ where
  returned : A → Run A
  panicked : Run A

unfoldable pub new_writer : List String → String → Writer
new_writer brokers topic = record {
  addr = brokers;
  topic = topic;
  batch_size = 100;
  batch_timeout = 5 * 1000000;
  allow_auto_topic_creation = true;
}

-- `writerFor`. A nil map can be read, but not written.
unfoldable pub writer_for : KafkaDispatcher → String → Run (KafkaDispatcher × Writer)
unfolding new_writer
writer_for d topic = elim d.writers [
  | none ↦ panicked
  | some writers ↦ elim (lookup text_dec topic writers) [
    | some w ↦ returned (d, w)
    | none ↦
        let w = new_writer d.brokers topic in
        returned (record d { writers = some (insert text_dec topic w writers) }, w)
  ]
]

module _ (kafka : Kafka) where
  -- The prefix of the error names the first broker.
  unfoldable pub new_kafka_dispatcher :
      kafka.Store → List String → Run (kafka.Store × Result KafkaDispatcher)
  new_kafka_dispatcher store [] = panicked
  new_kafka_dispatcher store (broker ∷ brokers) =
      let (store', failed) = kafka.dial store broker in
      returned (
        store',
        elim failed [
          | some e ↦ err (wrapped (append "kafka dispatcher: dial " (append broker ": ")) e)
          | none ↦ ok (record { brokers = broker ∷ brokers; writers = some [] })
        ],
      )

  -- `Dispatch` returns nil always: an error of the writer is logged.
  unfoldable pub dispatch :
      List (String × String)
      → kafka.Store
      → KafkaDispatcher
      → Event
      → Run (kafka.Store × KafkaDispatcher × Option Error)
  unfolding writer_for
  dispatch headers store d event = elim (writer_for d event.topic) [
    | panicked ↦ panicked
    | returned (d', w) ↦
        let message : Message = record { key = event.key; value = event.body; headers = headers } in
        returned ((kafka.write_messages store w message).0, d', none)
  ]

  close_all : kafka.Store → List (String × Writer) → kafka.Store
  close_all store [] = store
  close_all store (w ∷ writers) = close_all (kafka.close store w.1).0 writers

  -- `Close`. The order of the writers is that of a range over the map; a nil map has none.
  unfoldable pub close :
      (List (String × Writer) → List (String × Writer))
      → kafka.Store
      → KafkaDispatcher
      → kafka.Store × KafkaDispatcher
  unfolding close_all
  close in_range store d = elim d.writers [
    | none ↦ (store, d)
    | some writers ↦ (close_all store (in_range writers), record d { writers = none })
  ]

-- What a service dispatches with: without Kafka, it only logs.
pub data Dispatcher : Type 0 where
  noop : Dispatcher
  kafka : KafkaDispatcher → Dispatcher

unfoldable pub dispatcher_of : Result KafkaDispatcher → Dispatcher
dispatcher_of (ok d) = kafka d
dispatcher_of (err e) = noop

unfoldable pub dispatch_event :
    (client : Kafka)
    → List (String × String)
    → client.Store
    → Dispatcher
    → Event
    → Run (client.Store × Dispatcher × Option Error)
unfolding dispatch
dispatch_event client headers store noop event = returned (store, noop, none)
dispatch_event client headers store (kafka d) event = elim (dispatch client headers store d event) [
  | panicked ↦ panicked
  | returned (store', d', e) ↦ returned (store', kafka d', e)
]
