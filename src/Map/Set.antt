-- ===== src/Map/Set.antt =====
-- `HashSet` and `UnorderedSet`: the members, each once.
use nft_farming.Prelude.{
  ◌≡◌, refl, Bool, false, not, ◌&&◌, ◌||◌, List, [], ◌∷◌, arith, if◌then◌else◌,
}
use nft_farming.Text.{Text, text_eq, text_eq_iff}

unfoldable pub contains : Text → List Text → Bool
contains k [] = false
contains k (j ∷ s) = text_eq j k || contains k s

unfoldable pub insert : Text → List Text → List Text
insert k [] = k ∷ []
insert k (j ∷ s) = if text_eq j k then j ∷ s else j ∷ insert k s

unfoldable pub remove : Text → List Text → List Text
remove k [] = []
remove k (j ∷ s) = let rest = remove k s in if text_eq j k then rest else j ∷ rest

pub contains-insert :
    (k j : Text) (s : List Text) → contains j (insert k s) ≡ (text_eq k j || contains j s)
unfolding contains insert
contains-insert k j [] = refl
contains-insert k j (i ∷ s) =
    ground (arith, text_eq_iff i k, text_eq_iff i j, text_eq_iff k j, contains-insert k j s)

pub contains-remove :
    (k j : Text) (s : List Text) → contains j (remove k s) ≡ (not (text_eq k j) && contains j s)
unfolding contains remove
contains-remove k j [] = ground arith
contains-remove k j (i ∷ s) =
    ground (arith, text_eq_iff i k, text_eq_iff i j, text_eq_iff k j, contains-remove k j s)
