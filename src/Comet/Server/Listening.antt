-- ===== src/Comet/Server/Listening.antt =====
-- pkg/comet/ws/server.go `Start`: what ends the server.
use feeds.Prelude.{◌≡◌, Bool, true, false, Option, none, some, List, [], ◌∷◌, Error, if◌then◌else◌}

-- What the select waits for: the context is done, and `Shutdown` then answers, or `ListenAndServe`
-- returns in its goroutine.
pub data Signal : Type 0 where
  interrupted : Option Error → Signal
  serving_ends : Option Error → Signal

-- `is_closed` is `errors.Is(err, http.ErrServerClosed)`, which net/http documents for a server that was
-- shut down.
module _ (is_closed : Error → Bool) where
  -- `Start` over what happens, in order: `none` while it blocks, else its answer.
  unfoldable pub start : List Signal → Option (Option Error)
  start [] = none
  start (interrupted answer ∷ signals) = some answer
  start (serving_ends none ∷ signals) = start signals
  start (serving_ends (some e) ∷ signals) =
      let rest = start signals in if is_closed e then rest else some (some e)

  -- A listener that was closed is not reported, also if its goroutine is seen first.
  start-closed :
      (e : Error) (answer : Option Error) (signals : List Signal)
      → is_closed e ≡ true
      → start (serving_ends (some e) ∷ interrupted answer ∷ signals) ≡ some answer
  unfolding start
  start-closed e answer signals h = rw h

  -- Any other error of the listener ends the server with it.
  start-failed :
      (e : Error) (signals : List Signal)
      → is_closed e ≡ false
      → start (serving_ends (some e) ∷ signals) ≡ some (some e)
  unfolding start
  start-failed e signals h = rw h
