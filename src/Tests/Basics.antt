-- ===== src/Tests/Basics.antt =====
-- `test_basics` of ref-farming/src/lib.rs up to the sixth round, run on the model: alice and danny stake
-- the seed of bob's contract, and the reward is charlie's token.
use nft_farming.Prelude.{ℕ, ◌≡◌, refl, false, true, none, some, List, [], ◌∷◌}
use nft_farming.Checked.{Result, ok, ◌>>=◌, checked_mul, checked_add, checked_sub, checked_div, fit}
use nft_farming.Text.{codes, text_eq, split}
use nft_farming.Utils.{AccountId, parse_seed_id, parse_farm_id, gen_farm_id, to_sec, to_nano}
use nft_farming.Farm.{
  FarmTerms, new_farm, claim_user_reward, distribute, try_distribute, accept_distribution, owed,
  pay_out, next_distribution, release, last_rounds, next_rps, keep_distribution, end_if_empty,
}
use nft_farming.Contract.{Contract, Env, new_contract}
use nft_farming.Map.{lookup, insert, remove}
use nft_farming.Map.Set
use nft_farming.Text.Decimal.{print_usize, parse_usize}
use nft_farming.Farm.Lifecycle.{add_reward, grow, start, top_up, view_farmer_unclaimed_reward}
use nft_farming.FarmSeed.{new_farm_seed, add_amount, sub_amount}
use nft_farming.Farmer
use nft_farming.Farmer.{
  storage_usage, farmer_bytes, new_farmer, add_seed, sub_seed, sub_reward, get_rps, set_rps,
  remove_rps,
}
use nft_farming.Claims.{
  get_farmer, get_farmer_default, internal_get_reward, get_seed, get_farmer_wrapped,
  get_seed_wrapped, internal_claim_user_reward_by_seed_id, claim_from_farms,
  claim_user_reward_from_farm,
}
use nft_farming.Rewards.{withdraw_rewards, internal_execute_withdraw_reward}
use nft_farming.Stakes.{
  internal_seed_deposit, internal_seed_withdraw, settle_withdrawal, remove_all_rps,
}
use nft_farming.Farms.{internal_add_farm, seed_for_farm}
use nft_farming.Receiver.{ft_on_transfer, receive_seed, receive_reward}
use nft_farming.Calls
use nft_farming.Storage.{
  assert_one_yocto, assert_storage_usage, storage_deposit, internal_farmer_storage, register_new,
  suggested_min_storage_usage, internal_register_account, with_balance, storage_balance_of,
}
use nft_farming.FarmInfo.{get_unclaimed_reward}
use nft_farming.View.{get_reward}
use nft_farming.Machine.{Call, run, execute}
use nft_farming.Tests.Data.{env_of}

abbrev seed_token : AccountId
seed_token = codes "bob"

abbrev reward_token : AccountId
reward_token = codes "charlie"

abbrev terms : FarmTerms
terms = record {
  seed_id = seed_token;
  reward_token = reward_token;
  start_at = 0;
  reward_per_session = 5000;
  session_interval = 50;
}

abbrev alice : AccountId
alice = codes "alice"

abbrev danny : AccountId
danny = codes "danny"

-- a call by an account at a time in seconds, with a deposit of 1852
abbrev at : ℕ → AccountId → Env
at seconds account = env_of account 1852 seconds []

-- a call with one yoctoNEAR
abbrev one_at : ℕ → AccountId → Env
one_at seconds account = env_of account 1 seconds []

-- a farm, its reward of ten rounds at 100, and alice's stake in round 1
abbrev first_calls : List (Env × Call)
first_calls =
    (at 0 alice, Call.create_simple_farm terms (some 10) none none)
    ∷ (at 100 reward_token, Call.ft_on_transfer alice 50000 (codes "bob#0"))
    ∷ (at 100 alice, Call.storage_deposit (some alice) (some true))
    ∷ (at 160 seed_token, Call.ft_on_transfer alice 10 [])
    ∷ []

-- danny's stake in round 3
abbrev second_calls : List (Env × Call)
second_calls =
    (at 210 danny, Call.storage_deposit (some danny) (some true))
    ∷ (at 260 seed_token, Call.ft_on_transfer danny 10 [])
    ∷ []

-- both leave in round 5
abbrev third_calls : List (Env × Call)
third_calls =
    (one_at 360 alice, Call.withdraw_seed seed_token 10)
    ∷ (one_at 370 danny, Call.withdraw_seed seed_token 10)
    ∷ []

abbrev unclaimed : ℕ → AccountId → Contract → Result ℕ
unclaimed seconds account c = get_unclaimed_reward (at seconds account) account (codes "bob#0") c

-- the unclaimed rewards at 160 and 210, then at 320, and then at 380 with the rewards that are left
abbrev basics : Result (List ℕ)
basics = do
  c₀ ← new_contract false alice
  c₁ ← run first_calls c₀
  a ← unclaimed 160 alice c₁
  b ← unclaimed 210 alice c₁
  c₂ ← run second_calls c₁
  d ← unclaimed 320 alice c₂
  e ← unclaimed 320 danny c₂
  c₃ ← run third_calls c₂
  f ← unclaimed 380 alice c₃
  g ← unclaimed 380 danny c₃
  ok (
      a
      ∷ b
      ∷ d
      ∷ e
      ∷ f
      ∷ g
      ∷ get_reward alice reward_token c₃
      ∷ get_reward danny reward_token c₃
      ∷ [])

-- The numbers that the test asserts.
basics_run : basics ≡ ok (0 ∷ 5000 ∷ 12500 ∷ 2500 ∷ 0 ∷ 0 ∷ 0 ∷ 0 ∷ [])
unfolding run execute storage_deposit internal_farmer_storage get_farmer_wrapped lookup register_new
    suggested_min_storage_usage checked_mul internal_register_account checked_add with_balance
    storage_balance_of insert text_eq storage_usage farmer_bytes new_farmer Calls.create_simple_farm
    Calls.assert_owner internal_add_farm seed_for_farm get_seed_wrapped new_farm_seed parse_seed_id
    split gen_farm_id print_usize Set.insert new_farm checked_sub ft_on_transfer receive_seed
    get_seed internal_seed_deposit internal_claim_user_reward_by_seed_id get_farmer claim_from_farms
    claim_user_reward_from_farm get_rps claim_user_reward distribute try_distribute
    accept_distribution owed pay_out fit set_rps add_amount add_seed withdraw_rewards Set.contains
    assert_storage_usage new_contract receive_reward add_reward grow start top_up to_sec to_nano
    next_distribution release last_rounds next_rps keep_distribution end_if_empty checked_div
    Calls.withdraw_seed Calls.transfer_seed assert_one_yocto internal_seed_withdraw
    settle_withdrawal remove_all_rps remove_rps sub_seed sub_amount remove
    internal_execute_withdraw_reward sub_reward get_unclaimed_reward view_farmer_unclaimed_reward
    parse_farm_id parse_usize get_reward internal_get_reward get_farmer_default Farmer.add_reward
basics_run = refl
