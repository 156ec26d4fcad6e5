-- ===== src/Bench/Ramp/Tally.antt =====
-- That the counters add up, that no slot is lost, and that the phase ends.
use feeds.Prelude.{
  ℕ, zero, suc, ◌+◌, ◌-◌, ◌*◌, ◌<◌, ◌≤◌, ◌≡◌, refl, ◌⊎◌, inl, inr, List, [], ◌∷◌, length,
  length-append, arith,
}
use feeds.Bench.Ramp.{
  dial_failed, Ramp, at_start, Event, launches, ends, counts, keeps, releases, dones, step, run,
  accepted,
}

pub record IsTally (n batch : ℕ) (s : Ramp) : Type 0 where
  pub slots : s.sem ≡ s.dialing + s.measured + s.counted + s.finishing
  pub group : s.waiting ≡ s.sem + s.leaving
  pub tried : s.launched ≡ s.dialing + s.measured + s.conn_ok + s.conn_fail
  pub timed : length s.auth_latency ≡ s.measured + s.conn_ok
  pub kept : s.conn_ok ≡ s.counted + s.conns
  pub bounded : s.sem ≤ batch
  pub within : s.launched ≤ n

start-IsTally : (n batch : ℕ) → IsTally n batch at_start
unfolding at_start
start-IsTally n batch = omega arith

step-IsTally :
    (n batch : ℕ) (s : Ramp) (e : Event) → IsTally n batch s → IsTally n batch (step n batch s e)
unfolding step
step-IsTally n batch s launches v = ground arith
step-IsTally n batch s (ends attempt d) v = ground (arith, length-append s.auth_latency (d ∷ []))
step-IsTally n batch s counts v = ground arith
step-IsTally n batch s keeps v = ground arith
step-IsTally n batch s releases v = ground arith
step-IsTally n batch s dones v = ground arith

run-IsTally :
    (n batch : ℕ) (s : Ramp) (es : List Event)
    → IsTally n batch s
    → IsTally n batch (run n batch s es)
unfolding run
run-IsTally n batch s [] v = v
run-IsTally n batch s (e ∷ es) v =
    run-IsTally n batch (step n batch s e) es (step-IsTally n batch s e v)

-- What is still to be done.
measure : ℕ → Ramp → ℕ
measure n s =
    (n - s.launched) * 6
    + s.dialing * 5
    + s.measured * 4
    + s.counted * 3
    + s.finishing * 2
    + s.leaving

-- The loop has launched all, and `wg.Wait` returns.
abbrev pub IsOver : ℕ → Ramp → Type 0
IsOver n s = (s.launched ≡ n) × (s.waiting ≡ 0)

zero-or-pos : (k : ℕ) → (k ≡ 0) ⊎ (0 < k)
zero-or-pos zero = inl refl
zero-or-pos (suc k) = inr (omega arith)

-- A step that is open to some goroutine, or to the loop.
record IsOpen (n batch : ℕ) (s : Ramp) : Type 0 where
  event : Event
  shorter : measure n (step n batch s event) < measure n s

progress : (n batch : ℕ) (s : Ramp) → IsTally n batch s → 0 < batch → IsOver n s ⊎ IsOpen n batch s
unfolding step measure accepted
progress n batch s v some_slot = elim (zero-or-pos s.dialing) [
  | inr h ↦ inr (record { event = ends dial_failed 0; shorter = ground arith })
  | inl a ↦ elim (zero-or-pos s.measured) [
    | inr h ↦ inr (record { event = counts; shorter = ground arith })
    | inl b ↦ elim (zero-or-pos s.counted) [
      | inr h ↦ inr (record { event = keeps; shorter = ground arith })
      | inl c ↦ elim (zero-or-pos s.finishing) [
        | inr h ↦ inr (record { event = releases; shorter = ground arith })
        | inl d ↦ elim (zero-or-pos s.leaving) [
          | inr h ↦ inr (record { event = dones; shorter = ground arith })
          | inl e ↦ elim (zero-or-pos (n - s.launched)) [
            | inl all ↦ inl (omega arith, omega arith)
            | inr more ↦ inr (record { event = launches; shorter = ground arith })
          ]
        ]
      ]
    ]
  ]
]

-- So many steps are enough.
finish :
    (k n batch : ℕ) (s : Ramp)
    → measure n s < k
    → IsTally n batch s
    → 0 < batch
    → (es : List Event) × IsOver n (run n batch s es)
unfolding run
finish zero n batch s m v some_slot = absurd (omega arith)
finish (suc k) n batch s m v some_slot = elim (progress n batch s v some_slot) [
  | inl over ↦ ([], over)
  | inr next ↦
      let s' = step n batch s next.event in
      let (es, over) =
        finish k n batch s' (omega (arith, next.shorter)) (step-IsTally n batch s next.event v)
          some_slot in
      (next.event ∷ es, over)
]

-- However the goroutines of the first phase interleave and whatever their attempts meet: at most as many
-- connect at once as there are slots; when the loop is through and the group is waited for, every
-- attempt is counted once, as a success or as a failure, every success has a latency and a connection,
-- and every slot is free; and with at least one slot the phase can always be finished.
pub ramp_adds_up :
    (n batch : ℕ) (es : List Event)
    → let s = run n batch at_start es in
      (s.dialing ≤ batch)
      × (IsOver n s
          → (s.conn_ok + s.conn_fail ≡ n)
            × (s.conns ≡ s.conn_ok)
            × (length s.auth_latency ≡ s.conn_ok)
            × (s.sem ≡ 0))
      × (0 < batch → (more : List Event) × IsOver n (run n batch s more))
ramp_adds_up n batch es =
    let s = run n batch at_start es in
    let v = run-IsTally n batch at_start es (start-IsTally n batch) in
    (
      omega (arith, v),
      λ over. (omega (arith, v), omega (arith, v), omega (arith, v), omega (arith, v)),
      λ some_slot. finish (measure n s + 1) n batch s (omega arith) v some_slot,
    )
