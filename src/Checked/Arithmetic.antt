-- ===== src/Checked/Arithmetic.antt =====
-- Rust's integers with overflow checks, and the 256-bit integers of the crate `uint`, whose
-- operations panic in the same cases. A width is given by the first number that is out of range.
use nft_farming.Checked.Panics.{Result, ok, err, overflow, division_by_zero}
use nft_farming.Prelude.{
  ℕ, ◌+◌, ◌-◌, ◌*◌, ◌/◌, ◌^◌, ◌≤◌, ◌<◌, ◌≡◌, ◌≢◌, arith, ltb, leb, ◌==◌, if◌then◌else◌,
}

abbrev pub u32_mod : ℕ
u32_mod = 2 ^ 32

abbrev pub u64_mod : ℕ
u64_mod = 2 ^ 64

abbrev pub u128_mod : ℕ
u128_mod = 2 ^ 128

abbrev pub u256_mod : ℕ
u256_mod = 2 ^ 256

module _ (modulus : ℕ) where
  -- a value that has to fit, as in `as_u128`
  unfoldable pub fit : ℕ → Result ℕ
  fit n = if ltb n modulus then ok n else err overflow

  unfoldable pub checked_add : ℕ → ℕ → Result ℕ
  checked_add a b = if ltb (a + b) modulus then ok (a + b) else err overflow

  unfoldable pub checked_mul : ℕ → ℕ → Result ℕ
  checked_mul a b = if ltb (a * b) modulus then ok (a * b) else err overflow

  pub fit-eq-ok : (n : ℕ) → n < modulus → fit n ≡ ok n
  unfolding fit
  fit-eq-ok n h = ground arith

  pub checked_add-eq-ok : (a b : ℕ) → a + b < modulus → checked_add a b ≡ ok (a + b)
  unfolding checked_add
  checked_add-eq-ok a b h = ground arith

  pub checked_mul-eq-ok : (a b : ℕ) → a * b < modulus → checked_mul a b ≡ ok (a * b)
  unfolding checked_mul
  checked_mul-eq-ok a b h = ground arith

unfoldable pub checked_sub : ℕ → ℕ → Result ℕ
checked_sub a b = if leb b a then ok (a - b) else err overflow

unfoldable pub checked_div : ℕ → ℕ → Result ℕ
checked_div a b = if b == 0 then err division_by_zero else ok (a / b)

pub checked_sub-eq-ok : (a b : ℕ) → b ≤ a → checked_sub a b ≡ ok (a - b)
unfolding checked_sub
checked_sub-eq-ok a b h = ground arith

pub checked_div-eq-ok : (a b : ℕ) → b ≢ 0 → checked_div a b ≡ ok (a / b)
unfolding checked_div
checked_div-eq-ok a b h = ground arith
