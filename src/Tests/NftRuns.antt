-- ===== src/Tests/NftRuns.antt =====
-- An NFT staked and taken out: the owner opens a farm for NFTs of "art", and alice stakes one.
use nft_farming.Checked.{
  checked_mul, checked_add, checked_sub, checked_div, fit, Succeeds, ok, Holds, ◌>>=◌,
}
use nft_farming.Map.{lookup, insert}
use nft_farming.Map.Set
use nft_farming.Text
use nft_farming.Text.{Text, codes, text_eq, split}
use nft_farming.Text.Decimal.{print_usize}
use nft_farming.Utils.{
  get_nft_balance_equivalent, parse_seed_id, gen_farm_id, to_sec, to_nano, nanos, NftBalance,
  contract_nft_token_id,
}
use nft_farming.Farm.{
  new_farm, claim_user_reward, distribute, try_distribute, accept_distribution, owed, pay_out,
  next_distribution, release, last_rounds, next_rps, keep_distribution, end_if_empty, Farm, running,
  FarmTerms,
}
use nft_farming.Farm.Lifecycle.{add_reward, grow, start, top_up}
use nft_farming.FarmSeed.{new_farm_seed, add_amount, FarmSeed, nft}
use nft_farming.Farmer.{
  storage_usage, farmer_bytes, new_farmer, add_seed, get_rps, set_rps, add_nft, Farmer,
}
use nft_farming.Claims.{
  get_farmer, get_seed, get_farmer_wrapped, get_seed_wrapped, internal_claim_user_reward_by_seed_id,
  claim_from_farms, claim_user_reward_from_farm,
}
use nft_farming.Rewards.{withdraw_rewards, only_result}
use nft_farming.Stakes
use nft_farming.Stakes.{
  internal_nft_deposit, stake_if_valued, internal_seed_deposit, internal_seed_withdraw,
  settle_withdrawal, remove_all_rps,
}
use nft_farming.Farms.{internal_add_farm, seed_for_farm}
use nft_farming.Receiver.{nft_on_transfer, ft_on_transfer, receive_reward}
use nft_farming.Calls
use nft_farming.Storage.{
  storage_deposit, internal_farmer_storage, register_new, suggested_min_storage_usage,
  internal_register_account, with_balance, storage_balance_of,
}
use nft_farming.Machine.{Call, execute}
use nft_farming.Prelude.{◌*◌, ◌≡◌, refl, none, some, [], ◌∷◌, arith}
use nft_farming.Contract.{rps_of, Env, failed}
use nft_farming.Farm.Accounts.{IsLive}
use nft_farming.Farm.Backing.{stake, entitlement}
use nft_farming.Claims.OneFarm.{IsClaimable}
use nft_farming.Farmer.Rps.{IsRpsCounted}
use nft_farming.Calls.{withdraw_nft, restake_nft, callback_post_withdraw_nft}
use nft_farming.Stakes.Unstake.{HasUnstaked}
use nft_farming.Calls.Loss.{HasLost, callback_post_withdraw_nft-HasLost}
use nft_farming.Funds.{owes, earned, held_by_farms, committed}
use nft_farming.Farmer
use nft_farming.World.{World, settle, invoke, IsPossible, started, next, called}
use nft_farming.World.Staking.{CanClaim}
use nft_farming.World.Nfts.{withdraw_nft-Succeeds}
use nft_farming.Tests.WorldRuns.{first, deployed_run}
use nft_farming.Tests.Data.{alice, owner, pics, gold, env_of, terms, farmer_of}

abbrev pics_terms : FarmTerms
pics_terms = record terms { seed_id = pics }

abbrev pics_farm_id : Text
pics_farm_id = codes "pics#0"

abbrev art : NftBalance
art = (codes "art", 2_000_000_000_000_000_000) ∷ []

abbrev sent_by_alice : Env
sent_by_alice = record (env_of (codes "art") 0 90 []) { signer_account_id = alice }

abbrev staked : World
staked = invoke sent_by_alice (Call.nft_on_transfer alice alice (codes "7") pics) (
    invoke (env_of gold 0 80 []) (Call.ft_on_transfer owner 50 pics_farm_id) (
      invoke (env_of owner 0 60 []) (Call.create_simple_farm pics_terms none (some art) none)
        (invoke (env_of alice 100_000 50 []) (Call.storage_deposit none none) first)))

staked-IsPossible : IsPossible staked
staked-IsPossible =
    next
      (next (next (next (started owner deployed_run) (called _ _ tt)) (called _ _ tt))
        (called _ _ tt))
      (called _ _ tt)

abbrev alice_staked : Farmer
alice_staked =
    farmer_of alice [] ((pics, 2_000_000_000_000_000_000) ∷ []) ((pics, codes "art@7" ∷ []) ∷ []) 1

abbrev seed_staked : FarmSeed
seed_staked = record {
  seed_id = pics;
  seed_type = nft;
  farms = pics_farm_id ∷ [];
  next_index = 1;
  amount = 2_000_000_000_000_000_000;
  min_deposit = 1_000_000_000_000_000_000;
  metadata = none;
}

abbrev fresh_farm : Farm
fresh_farm = record {
  farm_id = pics_farm_id;
  terms = pics_terms;
  status = running;
  last_distribution = record { undistributed = 50; unclaimed = 0; rps = 0; rr = 0 };
  amount_of_reward = 50;
  amount_of_claimed = 0;
  amount_of_beneficiary = 0;
}

staked-contract :
    (lookup alice staked.contract.farmers ≡ some alice_staked)
    × (lookup pics staked.contract.seeds ≡ some seed_staked)
    × (lookup pics_farm_id staked.contract.farms ≡ some fresh_farm)
    × (rps_of alice staked.contract ≡ (pics_farm_id, 0) ∷ [])
    × (lookup pics staked.contract.nft_balance_seeds ≡ some art)
unfolding settle nft_on_transfer internal_nft_deposit stake_if_valued Stakes.stake_nft add_nft
    get_nft_balance_equivalent invoke execute storage_deposit internal_farmer_storage
    get_farmer_wrapped lookup register_new suggested_min_storage_usage checked_mul
    internal_register_account checked_add with_balance storage_balance_of insert text_eq
    storage_usage farmer_bytes new_farmer Calls.create_simple_farm Calls.assert_owner
    internal_add_farm seed_for_farm get_seed_wrapped new_farm_seed parse_seed_id split gen_farm_id
    print_usize Set.insert new_farm checked_sub ft_on_transfer get_seed
    internal_claim_user_reward_by_seed_id get_farmer claim_from_farms claim_user_reward_from_farm
    get_rps claim_user_reward distribute try_distribute accept_distribution owed pay_out fit set_rps
    add_amount add_seed withdraw_rewards Set.contains receive_reward add_reward grow start top_up
    to_sec to_nano next_distribution release last_rounds next_rps keep_distribution end_if_empty
    checked_div contract_nft_token_id Text.contains
staked-contract = (refl, refl, refl, refl, refl)

fresh_farm-IsLive : IsLive (230 * nanos) fresh_farm
fresh_farm-IsLive = record {
  usable = record { interval = omega arith; reward = omega arith; small = omega arith };
  balanced = record {
    balance = refl;
    beneficiary = omega arith;
    fits = omega arith;
    paid_for = omega arith;
    over = λ h. cc;
  };
  clock = omega arith;
  past = omega arith;
}

alice-IsClaimable :
    IsClaimable
      (230 * nanos)
      2_000_000_000_000_000_000
      alice_staked.seeds
      staked.contract.farms
      ((pics_farm_id, 0) ∷ [])
      pics_farm_id
unfolding lookup text_eq get_rps stake entitlement
alice-IsClaimable = record {
  farm = fresh_farm;
  there = staked-contract.2;
  named = refl;
  live = fresh_farm-IsLive;
  before = [];
  later = [];
  mine = 2_000_000_000_000_000_000;
  staked = refl;
  some_staked = omega arith;
  whole = refl;
  backed = omega arith;
  below = omega arith;
}

abbrev at_230 : Env
at_230 = env_of alice 1 230 []

alice-CanClaim : CanClaim at_230 staked alice pics alice_staked seed_staked
unfolding Set.contains
alice-CanClaim = record {
  possible = staked-IsPossible;
  known = staked-contract.0;
  found = staked-contract.1;
  claimable = rw staked-contract.3 (alice-IsClaimable, refl, tt);
  room = omega arith;
}

alice-IsRpsCounted : IsRpsCounted (alice_staked, rps_of alice staked.contract)
unfolding lookup
alice-IsRpsCounted = rw staked-contract.3 ((refl, tt), refl)

withdraw_nft-Succeeds_example :
    Succeeds
      (HasUnstaked pics pics alice
        (contract_nft_token_id (codes "art") (codes "7"))
        staked.contract)
      (withdraw_nft at_230 pics (codes "art") (codes "7") staked.contract)
unfolding lookup text_eq Set.contains get_nft_balance_equivalent contract_nft_token_id Text.contains
    split
withdraw_nft-Succeeds_example =
    withdraw_nft-Succeeds pics at_230 staked pics alice_staked seed_staked (codes "art") (codes "7")
      art 2_000_000_000_000_000_000 refl alice-CanClaim alice-IsRpsCounted refl staked-contract.4
      refl (omega arith) (omega arith)

abbrev failed_230 : Env
failed_230 = env_of alice 0 230 (failed ∷ [])

-- 10 of the 50 that the contract answers for are gone
loss_run :
    (owes gold staked.contract ≡ 50)
    × ((callback_post_withdraw_nft failed_230 pics alice (codes "art") (codes "8") staked.contract
          >>= λ c. ok (owes gold c))
        ≡ ok 40)
unfolding settle nft_on_transfer internal_nft_deposit stake_if_valued Stakes.stake_nft add_nft
    get_nft_balance_equivalent invoke execute storage_deposit internal_farmer_storage
    get_farmer_wrapped lookup register_new suggested_min_storage_usage checked_mul
    internal_register_account checked_add with_balance storage_balance_of insert text_eq
    storage_usage farmer_bytes new_farmer Calls.create_simple_farm Calls.assert_owner
    internal_add_farm seed_for_farm get_seed_wrapped new_farm_seed parse_seed_id split gen_farm_id
    print_usize Set.insert new_farm checked_sub ft_on_transfer get_seed
    internal_claim_user_reward_by_seed_id get_farmer claim_from_farms claim_user_reward_from_farm
    get_rps claim_user_reward distribute try_distribute accept_distribution owed pay_out fit set_rps
    add_amount add_seed withdraw_rewards Set.contains receive_reward add_reward grow start top_up
    to_sec to_nano next_distribution release last_rounds next_rps keep_distribution end_if_empty
    checked_div contract_nft_token_id Text.contains callback_post_withdraw_nft restake_nft
    only_result earned held_by_farms committed Farmer.add_reward
loss_run = (refl, refl)

callback_post_withdraw_nft-HasLost_example :
    Holds
      (HasLost gold failed_230 pics alice alice_staked staked.contract)
      (callback_post_withdraw_nft failed_230 pics alice (codes "art") (codes "8") staked.contract)
unfolding lookup text_eq get_nft_balance_equivalent contract_nft_token_id Text.contains split
callback_post_withdraw_nft-HasLost_example =
    callback_post_withdraw_nft-HasLost gold failed_230 pics alice (codes "art") (codes "8")
      staked.contract alice_staked art 2_000_000_000_000_000_000 refl staked-contract.0
      staked-contract.4 refl
