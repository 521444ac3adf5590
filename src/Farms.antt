-- ===== src/Farms.antt =====
-- ref-farming/src/internals.rs: adding a farm to a seed, and removing one that has ended.
pub mod Listed
pub mod Staking
pub mod Registry
pub mod Upkeep
use nft_farming.Prelude.{ℕ, Bool, true, false, Option, none, some}
use nft_farming.Checked.{Result, ok, err41_farm_not_exist, ◌>>=◌, expect, checked_add, u32_mod}
use nft_farming.Map.{lookup, insert, remove}
use nft_farming.Map.Set
use nft_farming.Utils.{FarmId, NftBalance, parse_farm_id, gen_farm_id}
use nft_farming.Farm.{FarmTerms, Farm, new_farm}
use nft_farming.Farm.Lifecycle.{can_be_removed, move_to_clear}
use nft_farming.FarmSeed.{FarmSeed, FarmSeedMetadata, new_farm_seed}
use nft_farming.Contract.{Contract, Env}
use nft_farming.Claims.{get_seed_wrapped}

-- The seed of a new farm: the one that is there, or a new one with its table of NFT values.
unfoldable pub seed_for_farm :
    FarmTerms
    → ℕ
    → Option NftBalance
    → Option FarmSeedMetadata
    → Contract
    → Result (FarmSeed × Contract)
seed_for_farm terms min_deposit nft_balance metadata c = elim (get_seed_wrapped terms.seed_id c) [
  | some fs ↦ ok (fs, c)
  | none ↦ elim nft_balance [
    | some table ↦ do
      fs ← new_farm_seed terms.seed_id min_deposit true metadata
      ok (fs, record c { nft_balance_seeds = insert terms.seed_id table c.nft_balance_seeds })
    | none ↦ do fs ← new_farm_seed terms.seed_id min_deposit false metadata; ok (fs, c)
  ]
]

unfoldable pub internal_add_farm :
    FarmTerms
    → ℕ
    → Option NftBalance
    → Option FarmSeedMetadata
    → Contract
    → Result (Contract × FarmId)
internal_add_farm terms min_deposit nft_balance metadata c = do
  (farm_seed, c') ← seed_for_farm terms min_deposit nft_balance metadata c
  let farm_id = gen_farm_id terms.seed_id farm_seed.next_index
  next_index ← checked_add u32_mod farm_seed.next_index 1
  ok (
    record c' {
      seeds =
          insert terms.seed_id
            (record farm_seed {
              farms = Set.insert farm_id farm_seed.farms;
              next_index = next_index;
            })
            c'.seeds;
      farms = insert farm_id (new_farm farm_id terms) c'.farms;
    },
    farm_id,
  )

-- Whether the farm is there and can be removed.
unfoldable pub removable : ℕ → ℕ → Option Farm → Result Bool
removable now seed_amount none = ok false
removable now seed_amount (some farm) = can_be_removed now seed_amount farm

-- Moves a farm to the outdated farms.
unfoldable pub retire : ℕ → FarmId → FarmSeed → Contract → Result Contract
retire now farm_id farm_seed c = do
  farm ← expect (lookup farm_id c.farms) err41_farm_not_exist
  (farm', _) ← move_to_clear now farm_seed.amount farm
  ok (record c {
    farms = remove farm_id c.farms;
    outdated_farms = insert farm_id farm' c.outdated_farms;
  })

unfoldable pub internal_remove_farm_by_farm_id : Env → FarmId → Contract → Result (Contract × Bool)
internal_remove_farm_by_farm_id env farm_id c = do
  (seed_id, _) ← parse_farm_id farm_id
  elim (get_seed_wrapped seed_id c) [
    | none ↦ ok (c, false)
    | some farm_seed ↦ do
      yes_remove ← removable env.block_timestamp farm_seed.amount (lookup farm_id c.farms)
      elim yes_remove [
        | false ↦ ok (c, false)
        | true ↦ do
          c' ← retire env.block_timestamp farm_id farm_seed c
          ok (
            record c' {
              seeds =
                  insert seed_id (record farm_seed { farms = Set.remove farm_id farm_seed.farms })
                    c'.seeds;
            },
            true,
          )
      ]
  ]
