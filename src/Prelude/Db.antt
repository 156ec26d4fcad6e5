-- ===== src/Prelude/Db.antt =====
-- The answers of the database driver, and Go's reading of page numbers and integers.
use Prim.Native.String.{String}
use feeds.Prelude.Errors.{Error, Result, ok, err, wrapped}

-- What becomes of one statement: it takes effect and is answered; it fails and has no effect; or it
-- takes effect and the answer is lost. Which of these happens is the environment's choice.
pub data Outcome : Type 0 where
  answered : Outcome
  refused : Error → Outcome
  lost : Error → Outcome

-- A statement that changes a table.
unfoldable pub exec {ℓ} : {T A : Type ℓ} → Outcome → (T → T × A) → T → T × Result A
exec answered statement t = let (t', a) = statement t in (t', ok a)
exec (refused e) statement t = (t, err e)
exec (lost e) statement t = let (t', a) = statement t in (t', err e)

-- A statement that reads a table.
unfoldable pub query {ℓ κ} : {T : Type ℓ} {A : Type κ} → Outcome → (T → A) → T → Result A
query answered read t = ok (read t)
query (refused e) read t = err e
query (lost e) read t = err e

-- `fmt.Errorf("prefix: %w", err)` around a failed call.
unfoldable pub wrap {ℓ} : {A : Type ℓ} → String → Result A → Result A
wrap prefix (ok a) = ok a
wrap prefix (err e) = err (wrapped prefix e)
