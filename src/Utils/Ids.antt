-- ===== src/Utils/Ids.antt =====
-- Farm identifiers: what `gen_farm_id` writes, `parse_farm_id` reads.
use nft_farming.Prelude.{
  ℕ, ◌<◌, ◌≡◌, refl, true, false, List, [], ◌∷◌, ◌++◌, length, arith, inl, inr, Bool-cases,
}
use nft_farming.Checked.{ok, Holds, u32_mod}
use nft_farming.Text.{Text, split, length-split, split_present, contains, split_first, split_absent}
use nft_farming.Text.Decimal.{print_usize, contains-print_usize, parse_usize-print_usize}
use nft_farming.Utils.{two_pieces, SeedId, farm_index_tag, parse_farm_id, gen_farm_id}

-- For a seed id without `#` and an index that fits 32 bits, parsing a generated farm id gives the
-- seed id and the index back.
pub parse_farm_id-gen_farm_id :
    (seed_id : SeedId) (index : ℕ)
    → contains farm_index_tag seed_id ≡ false
    → index < u32_mod
    → parse_farm_id (gen_farm_id seed_id index) ≡ ok (seed_id, index)
unfolding parse_farm_id gen_farm_id
parse_farm_id-gen_farm_id seed_id index plain fits = rw (
  split_first farm_index_tag seed_id (print_usize index) plain,
  split_absent farm_index_tag (print_usize index)
      (contains-print_usize index farm_index_tag (omega arith)),
  parse_usize-print_usize index fits,
)

many_pieces :
    (pieces : Text × List Text) (P : SeedId × ℕ → Type 0)
    → 1 < length pieces.1
    → Holds P (two_pieces pieces)
many_pieces (first, []) P h = tt
many_pieces (first, index ∷ []) P h = absurd (omega (arith, h))
many_pieces (first, index ∷ other ∷ rest) P h = tt

marked_id :
    (seed_id : SeedId) (index : ℕ)
    → contains farm_index_tag seed_id ≡ true
    → Holds
        (λ (parsed : SeedId × ℕ). parsed.0 ≡ seed_id)
        (parse_farm_id (gen_farm_id seed_id index))
unfolding parse_farm_id gen_farm_id
marked_id seed_id index marked =
    many_pieces (split farm_index_tag (seed_id ++ farm_index_tag ∷ print_usize index)) _ (
      omega (
        arith,
        length-split farm_index_tag seed_id (print_usize index),
        split_present farm_index_tag seed_id marked,
      ))

-- A generated farm id belongs to no other seed: with a `#` in the seed id, parsing it panics.
pub gen_farm_id-owner :
    (seed_id : SeedId) (index : ℕ)
    → index < u32_mod
    → Holds
        (λ (parsed : SeedId × ℕ). parsed.0 ≡ seed_id)
        (parse_farm_id (gen_farm_id seed_id index))
gen_farm_id-owner seed_id index fits = elim (Bool-cases (contains farm_index_tag seed_id)) [
  | inl marked ↦ marked_id seed_id index marked
  | inr plain ↦ rw (parse_farm_id-gen_farm_id seed_id index plain fits) refl
]
