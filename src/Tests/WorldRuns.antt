-- ===== src/Tests/WorldRuns.antt =====
-- A reward in flight: alice stakes, claims after two sessions, and withdraws what she has earned.
use nft_farming.Checked.{ok, checked_mul, checked_add, checked_sub, checked_div, fit}
use nft_farming.Contract.{new_contract, ft_transfer, post_withdraw_reward, failed, rps_of, Receipt}
use nft_farming.Map.{lookup, insert, remove}
use nft_farming.Map.Set
use nft_farming.Text.{text_eq, split}
use nft_farming.Text.Decimal.{print_usize, parse_usize}
use nft_farming.Utils.{parse_seed_id, parse_farm_id, gen_farm_id, to_sec, to_nano, nanos}
use nft_farming.Farm.{
  new_farm, claim_user_reward, distribute, try_distribute, accept_distribution, owed, pay_out,
  next_distribution, release, last_rounds, next_rps, keep_distribution, end_if_empty, Farm, running,
}
use nft_farming.Farm.Lifecycle.{add_reward, grow, start, top_up, view_farmer_unclaimed_reward}
use nft_farming.FarmSeed.{new_farm_seed, add_amount, sub_amount, FarmSeed, ft}
use nft_farming.Farmer
use nft_farming.Farmer.{
  storage_usage, farmer_bytes, new_farmer, add_seed, sub_seed, sub_reward, get_rps, set_rps,
  remove_rps, Farmer,
}
use nft_farming.Claims.{
  get_farmer, get_farmer_default, internal_get_reward, get_seed, get_farmer_wrapped,
  get_seed_wrapped, internal_claim_user_reward_by_seed_id, claim_from_farms,
  claim_user_reward_from_farm,
}
use nft_farming.Rewards.{withdraw_rewards, internal_execute_withdraw_reward}
use nft_farming.Stakes.{
  internal_seed_deposit, internal_seed_withdraw, settle_withdrawal, remove_all_rps,
}
use nft_farming.Farms.{internal_add_farm, seed_for_farm}
use nft_farming.Receiver.{ft_on_transfer, receive_seed, receive_reward}
use nft_farming.Calls
use nft_farming.Storage.{
  assert_one_yocto, assert_storage_usage, storage_deposit, internal_farmer_storage, register_new,
  suggested_min_storage_usage, internal_register_account, with_balance, storage_balance_of,
}
use nft_farming.FarmInfo.{get_unclaimed_reward}
use nft_farming.View.{get_reward}
use nft_farming.Machine.{Call, execute}
use nft_farming.Prelude.{◌+◌, ◌*◌, ◌≡◌, refl, none, some, false, [], ◌∷◌, ◌++◌, arith}
use nft_farming.Farm.Accounts.{IsLive}
use nft_farming.Farm.Backing.{stake, entitlement}
use nft_farming.Claims.Growth.{balance}
use nft_farming.Claims.OneFarm.{IsClaimable}
use nft_farming.World.{World, settle, invoke, conclude, IsPossible, started, next, called}
use nft_farming.World.Solvent.{IsSolvent, possible-IsSolvent}
use nft_farming.World.Bounced.{HasReward, conclude-HasReward}
use nft_farming.Tests.Data.{
  deployed_contract, alice, owner, seed, gold, farm_id, env_of, terms, farmer_of,
}

abbrev pub first : World
first = record { contract = deployed_contract; in_flight = []; delivered = [] }

abbrev pub staked : World
staked = invoke (env_of seed 0 90 []) (Call.ft_on_transfer alice 2_000_000_000_000_000_000 []) (
    invoke (env_of gold 0 80 []) (Call.ft_on_transfer owner 50 farm_id) (
      invoke (env_of owner 0 60 []) (Call.create_simple_farm terms none none none)
        (invoke (env_of alice 100_000 50 []) (Call.storage_deposit none none) first)))

abbrev flying : World
flying =
    invoke (env_of alice 1 240 []) (Call.withdraw_reward gold none)
      (invoke (env_of alice 1 230 []) (Call.claim_reward_by_seed seed) staked)

pub deployed_run : new_contract false owner ≡ ok deployed_contract
unfolding new_contract
deployed_run = refl

pub staked-IsPossible : IsPossible staked
staked-IsPossible =
    next
      (next (next (next (started owner deployed_run) (called _ _ tt)) (called _ _ tt))
        (called _ _ tt))
      (called _ _ tt)

flying-IsPossible : IsPossible flying
flying-IsPossible = next (next staked-IsPossible (called _ _ tt)) (called _ _ tt)

abbrev pub alice_staked : Farmer
alice_staked = farmer_of alice [] ((seed, 2_000_000_000_000_000_000) ∷ []) [] 1

abbrev pub seed_staked : FarmSeed
seed_staked = record {
  seed_id = seed;
  seed_type = ft;
  farms = farm_id ∷ [];
  next_index = 1;
  amount = 2_000_000_000_000_000_000;
  min_deposit = 1_000_000_000_000_000_000;
  metadata = none;
}

abbrev fresh_farm : Farm
fresh_farm = record {
  farm_id = farm_id;
  terms = terms;
  status = running;
  last_distribution = record { undistributed = 50; unclaimed = 0; rps = 0; rr = 0 };
  amount_of_reward = 50;
  amount_of_claimed = 0;
  amount_of_beneficiary = 0;
}

abbrev paid_out : Receipt
paid_out = ft_transfer alice 10 gold (post_withdraw_reward gold alice 10)

pub staked-contract :
    (lookup alice staked.contract.farmers ≡ some alice_staked)
    × (lookup seed staked.contract.seeds ≡ some seed_staked)
    × (lookup farm_id staked.contract.farms ≡ some fresh_farm)
    × (rps_of alice staked.contract ≡ (farm_id, 0) ∷ [])
unfolding settle invoke execute storage_deposit internal_farmer_storage get_farmer_wrapped lookup
    register_new suggested_min_storage_usage checked_mul internal_register_account checked_add
    with_balance storage_balance_of insert text_eq storage_usage farmer_bytes new_farmer
    Calls.create_simple_farm Calls.assert_owner internal_add_farm seed_for_farm get_seed_wrapped
    new_farm_seed parse_seed_id split gen_farm_id print_usize Set.insert new_farm checked_sub
    ft_on_transfer receive_seed get_seed internal_seed_deposit internal_claim_user_reward_by_seed_id
    get_farmer claim_from_farms claim_user_reward_from_farm get_rps claim_user_reward distribute
    try_distribute accept_distribution owed pay_out fit set_rps add_amount add_seed withdraw_rewards
    Set.contains assert_storage_usage new_contract receive_reward add_reward grow start top_up
    to_sec to_nano next_distribution release last_rounds next_rps keep_distribution end_if_empty
    checked_div Calls.withdraw_seed Calls.claim_reward_by_seed Calls.withdraw_reward
    Calls.transfer_seed assert_one_yocto internal_seed_withdraw settle_withdrawal remove_all_rps
    remove_rps sub_seed sub_amount remove internal_execute_withdraw_reward sub_reward
    get_unclaimed_reward view_farmer_unclaimed_reward parse_farm_id parse_usize get_reward
    internal_get_reward get_farmer_default Farmer.add_reward
staked-contract = (refl, refl, refl, refl)

flying-contract :
    (lookup alice flying.contract.farmers ≡ some alice_staked)
    × (flying.in_flight ≡ [] ++ paid_out ∷ [])
unfolding settle invoke execute storage_deposit internal_farmer_storage get_farmer_wrapped lookup
    register_new suggested_min_storage_usage checked_mul internal_register_account checked_add
    with_balance storage_balance_of insert text_eq storage_usage farmer_bytes new_farmer
    Calls.create_simple_farm Calls.assert_owner internal_add_farm seed_for_farm get_seed_wrapped
    new_farm_seed parse_seed_id split gen_farm_id print_usize Set.insert new_farm checked_sub
    ft_on_transfer receive_seed get_seed internal_seed_deposit internal_claim_user_reward_by_seed_id
    get_farmer claim_from_farms claim_user_reward_from_farm get_rps claim_user_reward distribute
    try_distribute accept_distribution owed pay_out fit set_rps add_amount add_seed withdraw_rewards
    Set.contains assert_storage_usage new_contract receive_reward add_reward grow start top_up
    to_sec to_nano next_distribution release last_rounds next_rps keep_distribution end_if_empty
    checked_div Calls.withdraw_seed Calls.claim_reward_by_seed Calls.withdraw_reward
    Calls.transfer_seed assert_one_yocto internal_seed_withdraw settle_withdrawal remove_all_rps
    remove_rps sub_seed sub_amount remove internal_execute_withdraw_reward sub_reward
    get_unclaimed_reward view_farmer_unclaimed_reward parse_farm_id parse_usize get_reward
    internal_get_reward get_farmer_default Farmer.add_reward
flying-contract = (refl, refl)

possible-IsSolvent_example : IsSolvent gold flying
possible-IsSolvent_example = possible-IsSolvent gold flying-IsPossible

conclude-HasReward_example :
    HasReward gold alice
      (balance gold alice_staked + 10)
      (conclude (env_of gold 0 250 []) failed paid_out (record flying { in_flight = [] ++ [] }))
conclude-HasReward_example =
    conclude-HasReward (env_of gold 0 250 []) flying [] [] alice gold gold alice 10 10 alice_staked
      flying-IsPossible flying-contract.1 flying-contract.0

fresh_farm-IsLive : IsLive (230 * nanos) fresh_farm
fresh_farm-IsLive = record {
  usable = record { interval = omega arith; reward = omega arith; small = omega arith };
  balanced = record {
    balance = refl;
    beneficiary = omega arith;
    fits = omega arith;
    paid_for = omega arith;
    over = λ h. cc;
  };
  clock = omega arith;
  past = omega arith;
}

pub alice-IsClaimable :
    IsClaimable
      (230 * nanos)
      2_000_000_000_000_000_000
      alice_staked.seeds
      staked.contract.farms
      ((farm_id, 0) ∷ [])
      farm_id
unfolding lookup text_eq get_rps stake entitlement
alice-IsClaimable = record {
  farm = fresh_farm;
  there = staked-contract.2;
  named = refl;
  live = fresh_farm-IsLive;
  before = [];
  later = [];
  mine = 2_000_000_000_000_000_000;
  staked = refl;
  some_staked = omega arith;
  whole = refl;
  backed = omega arith;
  below = omega arith;
}
