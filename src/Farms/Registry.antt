-- ===== src/Farms/Registry.antt =====
-- Opening and closing farms keeps a seed's list of farms within the farms that are there
-- (ref-farming/src/internals.rs).
use nft_farming.Prelude.{
  ℕ, Bool, false, Option, arith, some, Option-cases, inl, inr, ◌≡◌, ◌⊎◌, true, if◌then◌else◌, ◌<◌,
}
use nft_farming.Checked.{Holds, ok, Holds->>=, Holds-bind, checked_add, u32_mod}
use nft_farming.Text.{text_eq_iff, text_eq}
use nft_farming.Map.{lookup, lookup-insert, is_some, insert, lookup-remove}
use nft_farming.Utils.{SeedId, FarmId, NftBalance, parse_farm_id, gen_farm_id}
use nft_farming.Farm.{FarmTerms, Farm, new_farm}
use nft_farming.FarmSeed.{FarmSeedMetadata, FarmSeed, new_farm_seed}
use nft_farming.Contract.{Contract, Env}
use nft_farming.Farms.{
  internal_add_farm, seed_for_farm, removable, retire, internal_remove_farm_by_farm_id,
}
use nft_farming.Map.Set
use nft_farming.Map.Set.{contains-insert, contains-remove}
use nft_farming.Utils.Ids.{gen_farm_id-owner}
use nft_farming.Claims.{get_seed_wrapped}
use nft_farming.Farms.Listed.{farms_of, SameFarms}

module _ (s : SeedId) (id : FarmId) where
  -- `s` does not list `id`, or the farm is there and its id names no other seed.
  abbrev pub IsListed : Contract → Type 0
  IsListed c =
      (Set.contains id (farms_of (lookup s c.seeds)) ≡ false)
      ⊎ (is_some (lookup id c.farms) ≡ true)
        × Holds (λ (parsed : SeedId × ℕ). parsed.0 ≡ s) (parse_farm_id id)

  pub same_listed : (c c' : Contract) → IsListed c → SameFarms s id c c' → IsListed c'
  same_listed c c' h same = ground (arith, same)

  seed_for_farm-farms :
      (terms : FarmTerms) (min_deposit : ℕ) (table : Option NftBalance)
      (metadata : Option FarmSeedMetadata) (c : Contract)
      → Holds
          (λ (out : FarmSeed × Contract).
            (out.0.farms ≡ farms_of (lookup terms.seed_id c.seeds))
            × (out.1.seeds ≡ c.seeds)
            × (out.1.farms ≡ c.farms))
          (seed_for_farm terms min_deposit table metadata c)
  unfolding seed_for_farm get_seed_wrapped new_farm_seed
  seed_for_farm-farms terms min_deposit table metadata c = ground arith

  -- The id of a new farm names its seed.
  owned :
      (seed_id : SeedId) (index : ℕ)
      → index < u32_mod
      → gen_farm_id seed_id index ≡ id
      → seed_id ≡ s
      → Holds (λ (parsed : SeedId × ℕ). parsed.0 ≡ s) (parse_farm_id id)
  owned seed_id index fits same_id same_seed =
      rw (same_id, same_seed) at (gen_farm_id-owner seed_id index fits)

  opened :
      (seed_id : SeedId) (n : ℕ) (farm : Farm) (seed : FarmSeed) (c c' : Contract)
      → IsListed c
      → seed.farms ≡ farms_of (lookup seed_id c.seeds)
      → c'.seeds ≡ c.seeds
      → c'.farms ≡ c.farms
      → seed.next_index < u32_mod
      → (let farm_id = gen_farm_id seed_id seed.next_index in
          IsListed (record c' {
            seeds =
                insert seed_id
                  (record seed { farms = Set.insert farm_id seed.farms; next_index = n })
                  c'.seeds;
            farms = insert farm_id farm c'.farms;
          }))
  opened seed_id n farm seed c c' h list seeds farms fits =
      let farm_id = gen_farm_id seed_id seed.next_index in
      ground (
        arith,
        lookup-insert seed_id s
            (record seed { farms = Set.insert farm_id seed.farms; next_index = n }) c'.seeds,
        lookup-insert farm_id id farm c'.farms,
        contains-insert farm_id id seed.farms,
        text_eq_iff seed_id s,
        text_eq_iff farm_id id,
        owned seed_id seed.next_index fits,
      )

  pub open_farm :
      (terms : FarmTerms) (min_deposit : ℕ) (table : Option NftBalance)
      (metadata : Option FarmSeedMetadata) (c : Contract)
      → IsListed c
      → Holds
          (λ (out : Contract × FarmId). IsListed out.0)
          (internal_add_farm terms min_deposit table metadata c)
  unfolding internal_add_farm checked_add
  open_farm terms min_deposit table metadata c h =
      Holds->>= _ _ (seed_for_farm terms min_deposit table metadata c) _
        (seed_for_farm-farms terms min_deposit table metadata c)
        λ out same. Holds-bind _ (checked_add u32_mod out.0.next_index 1) _ λ n e.
          opened terms.seed_id n (new_farm (gen_farm_id terms.seed_id out.0.next_index) terms) out.0
            c out.1 h same.0 same.1 same.2 (ground arith)

  retire-keys :
      (now : ℕ) (farm_id : FarmId) (seed : FarmSeed) (c : Contract)
      → Holds
          (λ (c' : Contract).
            (c'.seeds ≡ c.seeds)
            × (is_some (lookup id c'.farms)
                ≡ (if text_eq farm_id id then false else is_some (lookup id c.farms))))
          (retire now farm_id seed c)
  unfolding retire
  retire-keys now farm_id seed c = grind (arith, lookup-remove)

  closed :
      (seed_id : SeedId) (index : ℕ) (farm_id : FarmId) (seed : FarmSeed) (c c' : Contract)
      → IsListed c
      → parse_farm_id farm_id ≡ ok (seed_id, index)
      → lookup seed_id c.seeds ≡ some seed
      → c'.seeds ≡ c.seeds
      → is_some (lookup id c'.farms)
        ≡ (if text_eq farm_id id then false else is_some (lookup id c.farms))
      → IsListed (record c' {
        seeds = insert seed_id (record seed { farms = Set.remove farm_id seed.farms }) c'.seeds;
      })
  closed seed_id index farm_id seed c c' h parsed known seeds keys = ground (
    arith,
    lookup-insert seed_id s (record seed { farms = Set.remove farm_id seed.farms }) c'.seeds,
    contains-remove farm_id id seed.farms,
    text_eq_iff seed_id s,
    text_eq_iff farm_id id,
  )

  pub close_farm :
      (env : Env) (farm_id : FarmId) (c : Contract)
      → IsListed c
      → Holds
          (λ (out : Contract × Bool). IsListed out.0)
          (internal_remove_farm_by_farm_id env farm_id c)
  unfolding internal_remove_farm_by_farm_id get_seed_wrapped
  close_farm env farm_id c h = Holds-bind _ (parse_farm_id farm_id) _ λ parsed e.
      elim (Option-cases (lookup parsed.0 c.seeds)) [
        | inl absent ↦ rw absent h
        | inr (seed, known) ↦ rw known (
            Holds-bind _ (removable env.block_timestamp seed.amount (lookup farm_id c.farms)) _
              (elim [
                | false ↦ λ _. h
                | true ↦ λ _.
                    Holds->>= _ _ (retire env.block_timestamp farm_id seed c) _
                      (retire-keys env.block_timestamp farm_id seed c)
                      λ c' keys. closed parsed.0 parsed.1 farm_id seed c c' h e known keys.0 keys.1
              ]))
      ]
