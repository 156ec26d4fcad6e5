-- ===== src/Config/Numbers.antt =====
-- The numbers of the configuration, printed and read.
use Prim.Native.Char.{code}
use feeds.Prelude.{
  ℕ, zero, suc, ◌+◌, ◌*◌, ◌/◌, ◌%◌, ◌^◌, ◌≤◌, ◌<◌, ◌≡◌, ◌≢◌, refl, ap, ◌∙◌, String, some, List, [],
  ◌∷◌, ◌==◌, arith, Bool-cases, inl, inr,
}
use feeds.Prelude.Int.{ℤ, pos, negsuc}
use feeds.Auth.{Env}
use feeds.Interaction.Uuid.{codes}
use feeds.Config.{
  scan, unsigned, minus, positive, negative, signed, atoi, digit, digits, itoa, get_env_int,
}

code-digit : (n : ℕ) → n < 10 → code (digit n) ≡ 48 + n
unfolding digit
code-digit zero h = refl
code-digit (suc zero) h = refl
code-digit (suc (suc zero)) h = refl
code-digit (suc (suc (suc zero))) h = refl
code-digit (suc (suc (suc (suc zero)))) h = refl
code-digit (suc (suc (suc (suc (suc zero))))) h = refl
code-digit (suc (suc (suc (suc (suc (suc zero)))))) h = refl
code-digit (suc (suc (suc (suc (suc (suc (suc zero))))))) h = refl
code-digit (suc (suc (suc (suc (suc (suc (suc (suc zero)))))))) h = refl
code-digit (suc (suc (suc (suc (suc (suc (suc (suc (suc zero))))))))) h = refl
code-digit (suc (suc (suc (suc (suc (suc (suc (suc (suc (suc n)))))))))) h =
    absurd (omega (arith, h))

scan_last : (n : ℕ) (s : List ℕ) → scan (n / 10) ((48 + n % 10) ∷ s) ≡ scan n s
unfolding scan
scan_last n s = ground arith

-- The numbers of so many digits are below it.
abbrev power : ℕ → ℕ
power zero = 1
power (suc rounds) = 10 * power rounds

scan-digits :
    (rounds n : ℕ) (out : String)
    → n < power rounds
    → scan 0 (codes (digits rounds n out)) ≡ scan n (codes out)
unfolding digits
scan-digits zero n out h = let e : n ≡ 0 = omega (arith, h) in rw e refl
scan-digits (suc rounds) n out h =
    let d = n % 10 in
    let few : n / 10 < power rounds = omega (arith, h) in
    let d_small : d < 10 = omega arith in
    let later = scan-digits rounds (n / 10) (String.◌∷◌ (digit d) out) few in
    ground (arith, later, code-digit d d_small, scan_last n (codes out))

-- The text begins with a digit.
abbrev IsDigits : List ℕ → Type 0
IsDigits [] = ⊥
IsDigits (c ∷ s) = (47 < c) × (c < 58)

digits-IsDigits :
    (rounds n : ℕ) (out : String)
    → (n ≡ 0 → IsDigits (codes out))
    → n < power rounds
    → IsDigits (codes (digits rounds n out))
unfolding digits
digits-IsDigits zero n out h small = h (omega (arith, small))
digits-IsDigits (suc rounds) n out h small =
    let d = n % 10 in
    let few : n / 10 < power rounds = omega (arith, small) in
    let d_small : d < 10 = omega arith in
    let e = code-digit d d_small in
    let later =
      digits-IsDigits rounds (n / 10) (String.◌∷◌ (digit d) out)
        (λ _. (omega (arith, e), omega (arith, e, d_small))) few in
    elim (Bool-cases (n == 0)) [
      | inl none_left ↦ rw (none_left, digits) (h (ground (arith, none_left)))
      | inr more ↦ rw (more, digits) later
    ]

signed-digits : (s : List ℕ) → IsDigits s → signed s ≡ positive (scan 0 s)
unfolding signed unsigned
signed-digits [] h = absurd h
signed-digits (c ∷ s) h = ground (arith, h)

unsigned-digits : (s : List ℕ) → IsDigits s → unsigned s ≡ scan 0 s
unfolding unsigned
unsigned-digits [] h = absurd h
unsigned-digits (c ∷ s) h = refl

positive_fits : (n : ℕ) → n < 2 ^ 63 → positive (some n) ≡ some (pos n)
positive_fits n h = ground (arith, h)

negative_fits : (n : ℕ) → n < 2 ^ 63 → negative (some (n + 1)) ≡ some (negsuc n)
unfolding minus
negative_fits n h = ground (arith, h)

-- An int, as a number of the model.
abbrev pub IsInt : ℤ → Type 0
IsInt (pos n) = n < 2 ^ 63
IsInt (negsuc n) = n < 2 ^ 63

-- The digits of a positive number: they are digits, and are read back.
digits_of :
    (n : ℕ)
    → 0 < n
    → n ≤ 2 ^ 63
    → IsDigits (codes (digits 20 n "")) × (scan 0 (codes (digits 20 n "")) ≡ some n)
unfolding scan
digits_of n some_left h =
    let small : n < power 20 = omega (arith, h) in
    (
      digits-IsDigits 20 n "" (λ e. absurd (omega (arith, e, some_left))) small,
      scan-digits 20 n "" small,
    )

itoa-suc : (n : ℕ) → itoa (pos (suc n)) ≡ digits 20 (suc n) ""
unfolding itoa
itoa-suc n = ground arith

atoi-itoa : (z : ℤ) → IsInt z → atoi (itoa z) ≡ some z
unfolding atoi itoa signed unsigned scan
atoi-itoa (pos zero) h = refl
atoi-itoa (pos (suc n)) h =
    let (some_digits, value) = digits_of (suc n) (omega arith) (omega (arith, h)) in
    ap atoi (itoa-suc n) ∙ signed-digits _ some_digits ∙ ap positive value ∙ positive_fits (suc n) h
atoi-itoa (negsuc n) h =
    let (some_digits, value) = digits_of (n + 1) (omega arith) (omega (arith, h)) in
    ap negative (unsigned-digits _ some_digits ∙ value) ∙ negative_fits n h

itoa-ne-empty : (z : ℤ) → IsInt z → itoa z ≢ ""
unfolding atoi signed
itoa-ne-empty z h e = cc (atoi-itoa z h)

-- What `Itoa` prints of an int is read back by `GetEnvInt`, whatever the fallback is.
pub get_env_int-itoa :
    (env : Env) (key : String) (fallback z : ℤ)
    → IsInt z
    → env key ≡ itoa z
    → get_env_int env key fallback ≡ z
unfolding get_env_int
get_env_int-itoa env key fallback z h e = ground (arith, e, atoi-itoa z h, itoa-ne-empty z h)
