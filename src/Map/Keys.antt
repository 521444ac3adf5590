-- ===== src/Map/Keys.antt =====
-- The number of entries of a map.
use nft_farming.Prelude.{◌+◌, ◌≡◌, refl, [], ◌∷◌, arith, if◌then◌else◌, length}
use nft_farming.Text.{Text, text_eq_iff}
use nft_farming.Map.Assoc.{Map, IsMap, remove_absent, lookup, insert, remove, is_some}

module _ {ℓ} {V : Type ℓ} where
  -- A key that is there keeps its place; another is added.
  pub length-insert :
      (k : Text) (v : V) (m : Map V)
      → length (insert k v m) ≡ (if is_some (lookup k m) then length m else length m + 1)
  unfolding lookup insert
  length-insert k v [] = omega arith
  length-insert k v ((j, w) ∷ m) = ground (arith, length-insert k v m)

  pub length-remove :
      (k : Text) (m : Map V)
      → IsMap m
      → length m ≡ (if is_some (lookup k m) then length (remove k m) + 1 else length (remove k m))
  unfolding lookup remove
  length-remove k [] h = refl
  length-remove k ((j, w) ∷ m) h =
      ground (arith, text_eq_iff j k, length-remove k m h.1, remove_absent j m)
