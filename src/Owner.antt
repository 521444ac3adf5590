-- ===== src/Owner.antt =====
-- ref-farming/src/owner.rs: what only the owner may do.
use nft_farming.Prelude.{ℕ, Bool}
use nft_farming.Checked.{Result, ok, ◌>>=◌, ◌>>◌}
use nft_farming.Utils.{SeedId, FarmId, AccountId}
use nft_farming.FarmSeed.{FarmSeed}
use nft_farming.Contract.{Contract, Env}
use nft_farming.Claims.{get_seed}
use nft_farming.Farms.{internal_remove_farm_by_farm_id}
use nft_farming.Calls.{assert_owner}

unfoldable pub set_owner : Env → AccountId → Contract → Result Contract
set_owner env owner_id c = do assert_owner env c; ok (record c { owner_id = owner_id })

unfoldable pub force_clean_farm : Env → FarmId → Contract → Result (Contract × Bool)
force_clean_farm env farm_id c = do
  assert_owner env c
  internal_remove_farm_by_farm_id env farm_id c

-- The seed that is read is a copy, and the copy that is changed is not written back.
unfoldable pub modify_seed_min_deposit : Env → SeedId → ℕ → Contract → Result Contract
modify_seed_min_deposit env seed_id min_deposit c = do
  assert_owner env c
  farm_seed ← get_seed seed_id c
  let changed : FarmSeed = record farm_seed { min_deposit = min_deposit }
  ok c
