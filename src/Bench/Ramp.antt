-- ===== src/Bench/Ramp.antt =====
-- services/live/bench/main.go, the first phase of the run: a goroutine for each connection, of which as
-- many run at once as the semaphore has slots, and what they count. A goroutine is known by what it
-- still has to do; the state keeps how many there are of each kind.
pub mod Tally
use feeds.Prelude.{
  ℕ, zero, suc, ◌+◌, ◌-◌, ◌<◌, Bool, true, false, List, [], ◌∷◌, ◌++◌, ltb, ◌==◌, ◌&&◌,
  if◌then◌else◌,
}
use feeds.Comet.Frame.{Bytes}

-- How an attempt to connect ends.
pub data Attempt : Type 0 where
  dial_failed : Attempt
  write_failed : Attempt
  read_failed : Attempt
  replied : Bytes → Attempt

-- Whether the token was accepted.
unfoldable pub accepted : Attempt → Bool
accepted (replied (a ∷ b ∷ rest)) = a == 0 && b == 1
accepted _ = false

pub record Ramp : Type 0 where
  pub launched : ℕ
  pub sem : ℕ
  pub waiting : ℕ
  -- the goroutines before the answer, with a latency to count, with a connection to keep, before they
  -- give back their slot, and before `wg.Done`
  pub dialing : ℕ
  pub measured : ℕ
  pub counted : ℕ
  pub finishing : ℕ
  pub leaving : ℕ
  pub conn_ok : ℕ
  pub conn_fail : ℕ
  pub auth_latency : List ℕ
  -- `len(conns)`
  pub conns : ℕ

unfoldable pub at_start : Ramp
at_start = record {
  launched = 0;
  sem = 0;
  waiting = 0;
  dialing = 0;
  measured = 0;
  counted = 0;
  finishing = 0;
  leaving = 0;
  conn_ok = 0;
  conn_fail = 0;
  auth_latency = [];
  conns = 0;
}

pub data Event : Type 0 where
  -- a round of the loop: `wg.Add`, a slot, `go`
  launches : Event
  -- a goroutine has its answer after a time: it counts a failure, or adds the latency
  ends : Attempt → ℕ → Event
  -- `connOK.Add`
  counts : Event
  -- `append(conns, ws)`
  keeps : Event
  -- the deferred calls
  releases : Event
  dones : Event

-- A goroutine that is not there does nothing, and the loop waits for a slot.
unfoldable pub step : ℕ → ℕ → Ramp → Event → Ramp
unfolding accepted
step n batch s launches =
    if ltb s.launched n && ltb s.sem batch
    then record s {
      launched = s.launched + 1;
      waiting = s.waiting + 1;
      sem = s.sem + 1;
      dialing = s.dialing + 1;
    }
    else s
step n batch s (ends attempt d) =
    if ltb 0 s.dialing
    then (if accepted attempt
        then record s {
          dialing = s.dialing - 1;
          measured = s.measured + 1;
          auth_latency = s.auth_latency ++ (d ∷ []);
        }
        else record s {
          dialing = s.dialing - 1;
          conn_fail = s.conn_fail + 1;
          finishing = s.finishing + 1;
        })
    else s
step n batch s counts =
    if ltb 0 s.measured
    then record s { measured = s.measured - 1; conn_ok = s.conn_ok + 1; counted = s.counted + 1 }
    else s
step n batch s keeps =
    if ltb 0 s.counted
    then record s { counted = s.counted - 1; conns = s.conns + 1; finishing = s.finishing + 1 }
    else s
step n batch s releases =
    if ltb 0 s.finishing
    then record s { finishing = s.finishing - 1; sem = s.sem - 1; leaving = s.leaving + 1 }
    else s
step n batch s dones =
    if ltb 0 s.leaving then record s { leaving = s.leaving - 1; waiting = s.waiting - 1 } else s

unfoldable pub run : ℕ → ℕ → Ramp → List Event → Ramp
run n batch s [] = s
run n batch s (e ∷ es) = run n batch (step n batch s e) es
