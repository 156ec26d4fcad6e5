-- ===== src/Prelude/Int.antt =====
-- Signed integers over the native numbers, under the library's names (its ℤ stands on the unary ℕ).
use Prim.Native.Nat.{ℕ, zero, suc, ◌-◌, ◌%◌, ◌^◌, ◌<◌}
use mathlib.Core.Path.{◌≡◌, refl}
use mathlib.Core.Logic.{◌⊎◌, inl, inr}
use native.Mathlib.Omega.{arith}
use feeds.Prelude.Tests.{ltb, if◌then◌else◌}

-- `negsuc n` is -(n + 1).
pub data ℤ : Type 0 where
  pos : ℕ → ℤ
  negsuc : ℕ → ℤ

pub ℤ-cases : (z : ℤ) → ((n : ℕ) × (z ≡ pos n)) ⊎ ((n : ℕ) × (z ≡ negsuc n))
ℤ-cases (pos n) = inl (n, refl)
ℤ-cases (negsuc n) = inr (n, refl)

-- One more, and one less.
unfoldable pub suc_ℤ : ℤ → ℤ
suc_ℤ (pos n) = pos (suc n)
suc_ℤ (negsuc zero) = pos 0
suc_ℤ (negsuc (suc n)) = negsuc n

unfoldable pub pred_ℤ : ℤ → ℤ
pred_ℤ (pos zero) = negsuc 0
pred_ℤ (pos (suc n)) = pos n
pred_ℤ (negsuc n) = negsuc (suc n)

-- The integer that a w-bit two's complement word stands for, at w = 32 and w = 64.
unfoldable pub int32 : ℕ → ℤ
int32 n =
    let word = n % 2 ^ 32 in if ltb word (2 ^ 31) then pos word else negsuc (2 ^ 32 - word - 1)

unfoldable pub int64 : ℕ → ℤ
int64 n =
    let word = n % 2 ^ 64 in if ltb word (2 ^ 63) then pos word else negsuc (2 ^ 64 - word - 1)

pub int32_small : (n : ℕ) → n < 2 ^ 31 → int32 n ≡ pos n
unfolding int32
int32_small n h = ground arith

pub int64_small : (n : ℕ) → n < 2 ^ 63 → int64 n ≡ pos n
unfolding int64
int64_small n h = ground arith

-- `if page <= 0 { page = 1 }`
unfoldable pub page_number : ℤ → ℕ
page_number (pos zero) = 1
page_number (pos (suc n)) = suc n
page_number (negsuc n) = 1

-- `if pageSize <= 0 || pageSize > 50 { pageSize = 20 }`
unfoldable pub page_size_of : ℤ → ℕ
page_size_of (pos zero) = 20
page_size_of (pos (suc n)) = if ltb 50 (suc n) then 20 else suc n
page_size_of (negsuc n) = 20

pub page_number-pos : (z : ℤ) → 0 < page_number z
unfolding page_number
page_number-pos (pos zero) = omega arith
page_number-pos (pos (suc n)) = omega arith
page_number-pos (negsuc n) = omega arith

pub page_size_bounds : (z : ℤ) → (0 < page_size_of z) × (page_size_of z < 51)
unfolding page_size_of
page_size_bounds (pos zero) = omega arith
page_size_bounds (pos (suc n)) = ground arith
page_size_bounds (negsuc n) = omega arith
