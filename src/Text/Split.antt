-- ===== src/Text/Split.antt =====
-- `s.split(c)` and `s.contains(c)` at a one-byte pattern. `split` yields at least one piece, so the
-- first piece stands apart from the others.
use nft_farming.Prelude.{
  ℕ, ◌+◌, ◌<◌, length, ◌≡◌, refl, Bool, true, false, ◌||◌, List, [], ◌∷◌, ◌++◌, arith, ◌==◌,
  if◌then◌else◌,
}
use nft_farming.Text.Equality.{Text}

unfoldable pub contains : ℕ → Text → Bool
contains c [] = false
contains c (x ∷ xs) = x == c || contains c xs

-- a byte that is no separator belongs to the first piece of what follows it
abbrev pub extend : ℕ → Text × List Text → Text × List Text
extend x (first, others) = (x ∷ first, others)

-- a separator ends an empty first piece
abbrev pub cut : Text × List Text → Text × List Text
cut (first, others) = ([], first ∷ others)

unfoldable pub split : ℕ → Text → Text × List Text
split c [] = ([], [])
split c (x ∷ xs) = let pieces = split c xs in if x == c then cut pieces else extend x pieces

-- A text without the separator is one piece.
pub split_absent : (c : ℕ) (s : Text) → contains c s ≡ false → split c s ≡ (s, [])
unfolding split contains
split_absent c [] h = refl
split_absent c (x ∷ xs) h = ground (arith, split_absent c xs)

-- The first piece is what stands before the first separator.
pub split_first :
    (c : ℕ) (s t : Text)
    → contains c s ≡ false
    → split c (s ++ c ∷ t) ≡ (s, (split c t).0 ∷ (split c t).1)
unfolding split contains
split_first c [] t h = ground arith
split_first c (x ∷ xs) t h = ground (arith, split_first c xs t)

pub contains-append_here : (c : ℕ) (s t : Text) → contains c (s ++ c ∷ t) ≡ true
unfolding contains
contains-append_here c [] t = ground arith
contains-append_here c (x ∷ xs) t = ground (arith, contains-append_here c xs t)

-- Each separator adds a piece.
pub length-split :
    (c : ℕ) (s t : Text)
    → length (split c (s ++ c ∷ t)).1 ≡ length (split c s).1 + 1 + length (split c t).1
unfolding split
length-split c [] t = ground arith
length-split c (x ∷ xs) t = ground (arith, length-split c xs t)

pub split_present : (c : ℕ) (s : Text) → contains c s ≡ true → 0 < length (split c s).1
unfolding split contains
split_present c [] h = absurd (cc)
split_present c (x ∷ xs) h = ground (arith, split_present c xs)
