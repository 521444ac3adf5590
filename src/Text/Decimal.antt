-- ===== src/Text/Decimal.antt =====
-- `format!("{}", n)` of a `usize`, and `s.parse::<usize>()`. On wasm32 `usize` has 32 bits.
use nft_farming.Prelude.{
  ℕ, zero, suc, ◌+◌, ◌-◌, ◌*◌, ◌/◌, ◌%◌, ◌<◌, ◌≡◌, ◌≢◌, refl, Bool, false, ◌&&◌, ◌∙◌, Option, none,
  some, [], ◌∷◌, arith, ltb, leb, ◌==◌, if◌then◌else◌,
}
use nft_farming.Checked.{u32_mod}
use nft_farming.Text.Equality.{Text}
use nft_farming.Text.Split.{contains}

-- The digits of `n` before `rest`. A number has fewer digits than `suc n`, so that fuel suffices.
print_digits : ℕ → ℕ → Text → Text
print_digits zero n rest = rest
print_digits (suc fuel) n rest =
    let more = print_digits fuel (n / 10) ((b'0' + n % 10) ∷ rest) in
    if ltb n 10 then (b'0' + n) ∷ rest else more

unfoldable pub print_usize : ℕ → Text
unfolding print_digits
print_usize n = print_digits (suc n) n []

is_digit : ℕ → Bool
is_digit c = leb b'0' c && leb c b'9'

-- `None` at a byte that is no digit, and where the number leaves its width.
parse_digits : ℕ → Text → Option ℕ
unfolding is_digit
parse_digits n [] = some n
parse_digits n (c ∷ cs) =
    let rest = parse_digits (n * 10 + (c - b'0')) cs in
    if is_digit c && ltb (n * 10 + (c - b'0')) u32_mod then rest else none

-- A leading `+` is accepted, if a digit follows.
unfoldable pub parse_usize : Text → Option ℕ
unfolding parse_digits
parse_usize [] = none
parse_usize (c ∷ []) = parse_digits 0 (c ∷ [])
parse_usize (c ∷ d ∷ s) = parse_digits 0 (if c == b'+' then d ∷ s else c ∷ d ∷ s)

parse_digits-print_digits :
    (fuel n : ℕ) (rest : Text)
    → n < fuel
    → n < u32_mod
    → parse_digits 0 (print_digits fuel n rest) ≡ parse_digits n rest
unfolding parse_digits print_digits
parse_digits-print_digits zero n rest h b = elim h [ ]
parse_digits-print_digits (suc fuel) n rest h b =
    ground (arith, parse_digits-print_digits fuel (n / 10) ((b'0' + n % 10) ∷ rest))

-- The first byte is a digit, and no byte is a separator.
print_digits_bytes :
    (fuel n c : ℕ) (rest : Text)
    → c < b'0'
    → contains c rest ≡ false
    → contains c (print_digits fuel n rest) ≡ false
unfolding contains print_digits
print_digits_bytes zero n c rest low h = h
print_digits_bytes (suc fuel) n c rest low h =
    ground (arith, print_digits_bytes fuel (n / 10) c ((b'0' + n % 10) ∷ rest))

pub contains-print_usize : (n c : ℕ) → c < b'0' → contains c (print_usize n) ≡ false
unfolding print_usize contains
contains-print_usize n c low = print_digits_bytes (suc n) n c [] low refl

print_digits_nonempty : (fuel n : ℕ) (rest : Text) → (rest ≡ [] → ⊥) → print_digits fuel n rest ≢ []
unfolding print_digits
print_digits_nonempty zero n rest h = h
print_digits_nonempty (suc fuel) n rest h =
    ground (arith, print_digits_nonempty fuel (n / 10) ((b'0' + n % 10) ∷ rest))

print_usize_nonempty : (n : ℕ) → print_usize n ≢ []
unfolding print_usize print_digits
print_usize_nonempty n =
    ground (arith, print_digits_nonempty n (n / 10) ((b'0' + n % 10) ∷ []) (λ e. cc))

-- With no `+` in front the digits are read as they stand.
parse_usize_plain : (s : Text) → s ≢ [] → contains b'+' s ≡ false → parse_usize s ≡ parse_digits 0 s
unfolding parse_usize contains
parse_usize_plain [] h c = absurd (h refl)
parse_usize_plain (x ∷ []) h c = refl
parse_usize_plain (x ∷ y ∷ s) h c = ground arith

-- Every index that fits is read back from what is printed.
pub parse_usize-print_usize : (n : ℕ) → n < u32_mod → parse_usize (print_usize n) ≡ some n
unfolding print_usize parse_digits
parse_usize-print_usize n b =
    parse_usize_plain (print_usize n) (print_usize_nonempty n)
      (contains-print_usize n b'+' (omega arith))
    ∙ read n b
  where
    read : (n : ℕ) → n < u32_mod → parse_digits 0 (print_usize n) ≡ some n
    read n b = parse_digits-print_digits (suc n) n [] (omega arith) b
