-- ===== src/Map/Values.antt =====
-- A predicate on every value of a map.
use nft_farming.Prelude.{◌≡◌, some, [], ◌∷◌, arith}
use nft_farming.Text.{Text}
use nft_farming.Map.Assoc.{Map, lookup, insert, remove}

module _ {ℓ} {V : Type ℓ} (P : V → Type 0) where
  abbrev pub All : Map V → Type 0
  All [] = Unit
  All ((k, v) ∷ m) = P v × All m

  pub All-lookup : (k : Text) (m : Map V) (v : V) → All m → lookup k m ≡ some v → P v
  unfolding lookup
  All-lookup k [] v h e = absurd (cc)
  All-lookup k ((j, w) ∷ m) v h e = ground (arith, All-lookup k m v h.1)

  pub All-insert : (k : Text) (v : V) (m : Map V) → All m → P v → All (insert k v m)
  unfolding insert
  All-insert k v [] h p = (p, tt)
  All-insert k v ((j, w) ∷ m) h p = ground (arith, All-insert k v m h.1 p)

  pub All-remove : (k : Text) (m : Map V) → All m → All (remove k m)
  unfolding remove
  All-remove k [] h = tt
  All-remove k ((j, w) ∷ m) h = ground (arith, All-remove k m h.1)
