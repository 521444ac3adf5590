-- ===== src/FarmInfo.antt =====
-- ref-farming/src/view.rs: what the contract shows of a farm, and the views of one farm.
use nft_farming.Prelude.{ℕ, Option, none, some, List, [], ◌∷◌, ◌&&◌, ◌==◌, if◌then◌else◌}
use nft_farming.Checked.{Result, ok, unwrap_none, ◌>>=◌, expect}
use nft_farming.Map.{lookup, unwrap_or}
use nft_farming.Text.{Text, codes, text_eq}
use nft_farming.Utils.{SeedId, FarmId, AccountId, parse_farm_id}
use nft_farming.Farm.{
  Farm, FarmRewardDistribution, FarmStatus, created, running, ended, cleared, denom, try_distribute,
}
use nft_farming.Farm.Lifecycle.{view_farmer_unclaimed_reward}
use nft_farming.Farmer.{get_rps, seed_balance}
use nft_farming.Contract.{Contract, Env, rps_of}
use nft_farming.Claims.{get_farmer_wrapped, get_seed, get_seed_wrapped}

pub record FarmInfo : Type 0 where
  pub farm_id : FarmId
  pub farm_status : Text
  pub seed_id : SeedId
  pub reward_token : AccountId
  pub start_at : ℕ
  pub reward_per_session : ℕ
  pub session_interval : ℕ
  pub total_reward : ℕ
  pub cur_round : ℕ
  pub last_round : ℕ
  pub claimed_reward : ℕ
  pub unclaimed_reward : ℕ
  pub beneficiary_reward : ℕ

-- `String::from(&status)`
unfoldable pub status_text : FarmStatus → Text
status_text created = codes "Created"
status_text running = codes "Running"
status_text ended = codes "Ended"
status_text cleared = codes "Cleared"

-- A running farm that would run dry is shown as ended.
unfoldable pub shown_status : Farm → Option FarmRewardDistribution → Text
shown_status farm none = status_text farm.status
shown_status farm (some dis) =
    if text_eq (status_text farm.status) (codes "Running") && (dis.undistributed == 0)
    then codes "Ended"
    else status_text farm.status

-- `FarmInfo::from(&farm)`
unfoldable pub farm_info : ℕ → Farm → Result FarmInfo
farm_info now farm = do
  dis ← try_distribute now denom farm
  let shown = unwrap_or dis farm.last_distribution
  ok (record {
    farm_id = farm.farm_id;
    farm_status = shown_status farm dis;
    seed_id = farm.terms.seed_id;
    reward_token = farm.terms.reward_token;
    start_at = farm.terms.start_at;
    reward_per_session = farm.terms.reward_per_session;
    session_interval = farm.terms.session_interval;
    total_reward = farm.amount_of_reward;
    cur_round = shown.rr;
    last_round = farm.last_distribution.rr;
    claimed_reward = farm.amount_of_claimed;
    unclaimed_reward = shown.unclaimed;
    beneficiary_reward = farm.amount_of_beneficiary;
  })

-- a farm that may be missing
unfoldable pub info_of : Env → Option Farm → Result (Option FarmInfo)
info_of env none = ok none
info_of env (some farm) = do info ← farm_info env.block_timestamp farm; ok (some info)

unfoldable pub get_farm : Env → FarmId → Contract → Result (Option FarmInfo)
get_farm env farm_id c = info_of env (lookup farm_id c.farms)

unfoldable pub get_outdated_farm : Env → FarmId → Contract → Result (Option FarmInfo)
get_outdated_farm env farm_id c = info_of env (lookup farm_id c.outdated_farms)

-- the views of the farms that a list names, each of which has to be there
unfoldable pub infos : Env → Contract → List FarmId → Result (List FarmInfo)
infos env c [] = ok []
infos env c (farm_id ∷ rest) = do
  farm ← expect (lookup farm_id c.farms) unwrap_none
  info ← farm_info env.block_timestamp farm
  others ← infos env c rest
  ok (info ∷ others)

unfoldable pub list_farms_by_seed : Env → SeedId → Contract → Result (List FarmInfo)
list_farms_by_seed env seed_id c = do seed ← get_seed seed_id c; infos env c seed.farms

-- The farmer's unclaimed reward of a farm, 0 where the farmer, the seed or the farm is missing.
unfoldable pub get_unclaimed_reward : Env → AccountId → FarmId → Contract → Result ℕ
get_unclaimed_reward env account_id farm_id c = do
  (seed_id, _) ← parse_farm_id farm_id
  elim (get_farmer_wrapped account_id c) [
    | none ↦ ok 0
    | some farmer ↦ elim (get_seed_wrapped seed_id c) [
      | none ↦ ok 0
      | some farm_seed ↦ elim (lookup farm_id c.farms) [
        | none ↦ ok 0
        | some farm ↦
            view_farmer_unclaimed_reward env.block_timestamp
              (get_rps farm.farm_id (rps_of account_id c)) (seed_balance seed_id farmer)
              farm_seed.amount farm
      ]
    ]
  ]
