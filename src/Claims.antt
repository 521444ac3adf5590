-- ===== src/Claims.antt =====
-- ref-farming/src/internals.rs: looking up farmers and seeds, and claiming a user's reward.
pub mod Frame
pub mod Registered
pub mod Growth
pub mod OneFarm
pub mod Live
pub mod Kept
pub mod Due
use nft_farming.Prelude.{ℕ, Option, none, some, List, [], ◌∷◌, ltb, if◌then◌else◌}
use nft_farming.Checked.{
  Result, ok, err10_acc_not_registered, err31_seed_not_exist, unwrap_none, ◌>>=◌, expect,
}
use nft_farming.Map.{Map, lookup, insert, unwrap_or}
use nft_farming.Utils.{SeedId, FarmId, AccountId, parse_farm_id}
use nft_farming.Farm.{Farm, claim_user_reward}
use nft_farming.FarmSeed.{FarmSeed}
use nft_farming.Farmer.{Farmer, UserRps, new_farmer, seed_balance, get_rps, set_rps, add_reward}
use nft_farming.Contract.{Contract, Env, rps_of}

unfoldable pub get_farmer : AccountId → Contract → Result Farmer
get_farmer from c = expect (lookup from c.farmers) err10_acc_not_registered

unfoldable pub get_farmer_default : AccountId → Contract → Farmer
get_farmer_default from c = unwrap_or (lookup from c.farmers) (new_farmer from 0)

unfoldable pub get_farmer_wrapped : AccountId → Contract → Option Farmer
get_farmer_wrapped from c = lookup from c.farmers

-- Returns the balance of a reward token, 0 where nothing is recorded.
unfoldable pub internal_get_reward : AccountId → AccountId → Contract → ℕ
internal_get_reward sender_id token_id c =
    unwrap_or (lookup token_id (get_farmer_default sender_id c).rewards) 0

unfoldable pub get_seed : SeedId → Contract → Result FarmSeed
get_seed seed_id c = expect (lookup seed_id c.seeds) err31_seed_not_exist

unfoldable pub get_seed_wrapped : SeedId → Contract → Option FarmSeed
get_seed_wrapped seed_id c = lookup seed_id c.seeds

-- The farm, the farmer and the farmer's rps after the claim.
unfoldable pub claim_user_reward_from_farm :
    ℕ → ℕ → Farm → Farmer → UserRps → Result (Farm × Farmer × UserRps)
claim_user_reward_from_farm now total_seeds farm farmer rps = do
  let user_seeds = seed_balance farm.terms.seed_id farmer
  let user_rps = get_rps farm.farm_id rps
  (farm', new_user_rps, reward_amount) ← claim_user_reward now user_rps user_seeds total_seeds farm
  (farmer', rps') ← set_rps farm'.farm_id new_user_rps farmer rps
  farmer'' ←
      if ltb 0 reward_amount
      then add_reward farm'.terms.reward_token reward_amount farmer'
      else ok farmer'
  ok (farm', farmer'', rps')

-- The loop over the farms of a seed.
unfoldable pub claim_from_farms :
    ℕ → ℕ → List FarmId → Map Farm → Farmer → UserRps → Result (Map Farm × Farmer × UserRps)
claim_from_farms now amount [] farms farmer rps = ok (farms, farmer, rps)
claim_from_farms now amount (farm_id ∷ rest) farms farmer rps = do
  farm ← expect (lookup farm_id farms) unwrap_none
  (farm', farmer', rps') ← claim_user_reward_from_farm now amount farm farmer rps
  claim_from_farms now amount rest (insert farm_id farm' farms) farmer' rps'

unfoldable pub internal_claim_user_reward_by_seed_id :
    Env → AccountId → SeedId → Contract → Result Contract
internal_claim_user_reward_by_seed_id env sender_id seed_id c = do
  farmer ← get_farmer sender_id c
  elim (get_seed_wrapped seed_id c) [
    | none ↦ ok c
    | some farm_seed ↦ do
      (farms, farmer', rps) ←
          claim_from_farms env.block_timestamp farm_seed.amount farm_seed.farms c.farms farmer
            (rps_of sender_id c)
      ok (record c {
        farms = farms;
        seeds = insert seed_id farm_seed c.seeds;
        farmers = insert sender_id farmer' c.farmers;
        user_rps = insert sender_id rps c.user_rps;
      })
  ]

unfoldable pub internal_claim_user_reward_by_farm_id :
    Env → AccountId → FarmId → Contract → Result Contract
internal_claim_user_reward_by_farm_id env sender_id farm_id c = do
  farmer ← get_farmer sender_id c
  (seed_id, _) ← parse_farm_id farm_id
  elim (get_seed_wrapped seed_id c) [
    | none ↦ ok c
    | some farm_seed ↦ elim (lookup farm_id c.farms) [
      | none ↦ ok c
      | some farm ↦ do
        (farm', farmer', rps) ←
            claim_user_reward_from_farm env.block_timestamp farm_seed.amount farm farmer
              (rps_of sender_id c)
        ok (record c {
          farms = insert farm_id farm' c.farms;
          farmers = insert sender_id farmer' c.farmers;
          user_rps = insert sender_id rps c.user_rps;
        })
    ]
  ]
