-- ===== src/Calls.antt =====
-- ref-farming/src/lib.rs: the methods that a user calls, and the callbacks of their transfers.
pub mod Restake
pub mod Loss
pub mod Effects
use nft_farming.Prelude.{
  ℕ, ◌*◌, Bool, true, false, Option, none, some, List, [], ltb, leb, ◌==◌, if◌then◌else◌, not,
}
use nft_farming.Checked.{
  Result, ok, err, err_not_allowed, err11_insufficient_storage, use_withdraw_nft, unreachable_code,
  unwrap_none, ◌>>=◌, ◌>>◌, ensure, expect, checked_sub, checked_mul, u128_mod,
}
use nft_farming.Map.{Map, lookup, insert, unwrap_or}
use nft_farming.Map.Set
use nft_farming.Text.{Text, text_eq, split}
use nft_farming.Utils.{
  SeedId, FarmId, AccountId, NftBalance, min_seed_deposit, ft_index_tag, parse_farm_id,
  ContractNftTokenId, contract_nft_token_id, get_nft_balance_equivalent,
}
use nft_farming.Farm.{FarmTerms}
use nft_farming.FarmSeed.{FarmSeedMetadata, FarmSeed, SeedType, ft, nft, add_amount}
use nft_farming.Farmer.{Farmer, remove_rps, add_nft, add_seed}
use nft_farming.Contract.{
  Contract, Env, not_ready, successful, failed, transfer, ft_transfer, nft_transfer,
  post_withdraw_ft_seed, post_withdraw_nft, rps_of, request,
}
use nft_farming.Claims.{
  get_farmer, get_seed, internal_claim_user_reward_by_seed_id,
  internal_claim_user_reward_by_farm_id,
}
use nft_farming.Rewards.{internal_execute_withdraw_reward, withdraw_rewards, only_result}
use nft_farming.Stakes.{internal_seed_withdraw, internal_nft_withdraw}
use nft_farming.Farms.{internal_add_farm}
use nft_farming.Storage.{assert_one_yocto, assert_storage_usage}
use nft_farming.FarmInfo.{get_farm}

unfoldable pub assert_owner : Env → Contract → Result (Unit {0})
assert_owner env c = ensure (text_eq env.predecessor_account_id c.owner_id) err_not_allowed

-- The owner pays for the storage, and what exceeds the cost is sent back.
unfoldable pub create_simple_farm :
    Env
    → FarmTerms
    → Option ℕ
    → Option NftBalance
    → Option FarmSeedMetadata
    → Contract
    → Result (Contract × FarmId)
create_simple_farm env terms min_deposit nft_balance metadata c = do
  assert_owner env c
  (c', farm_id) ←
      internal_add_farm terms (unwrap_or min_deposit min_seed_deposit) nft_balance metadata c
  storage_needed ← checked_sub (env.storage_usage c') (env.storage_usage c)
  storage_cost ← checked_mul u128_mod storage_needed env.storage_byte_cost
  ensure (leb storage_cost env.attached_deposit) err11_insufficient_storage
  refund ← checked_sub env.attached_deposit storage_cost
  ok (if ltb 0 refund then request (transfer env.predecessor_account_id refund) c' else c', farm_id)

-- `false` if the rps is still valid.
unfoldable pub remove_user_rps_by_farm : Env → FarmId → Contract → Result (Contract × Bool)
remove_user_rps_by_farm env farm_id c = do
  let sender_id = env.predecessor_account_id
  farmer ← get_farmer sender_id c
  (seed_id, _) ← parse_farm_id farm_id
  farm_seed ← get_seed seed_id c
  if Set.contains farm_id farm_seed.farms then ok (c, false) else do
    (farmer', rps) ← remove_rps farm_id farmer (rps_of sender_id c)
    ok (
      record c {
        farmers = insert sender_id farmer' c.farmers;
        user_rps = insert sender_id rps c.user_rps;
      },
      true,
    )

unfoldable pub claim_reward_by_farm : Env → FarmId → Contract → Result Contract
claim_reward_by_farm env farm_id c = do
  c' ← internal_claim_user_reward_by_farm_id env env.predecessor_account_id farm_id c
  assert_storage_usage env env.predecessor_account_id c'
  ok c'

unfoldable pub claim_reward_by_seed : Env → SeedId → Contract → Result Contract
claim_reward_by_seed env seed_id c = do
  c' ← internal_claim_user_reward_by_seed_id env env.predecessor_account_id seed_id c
  assert_storage_usage env env.predecessor_account_id c'
  ok c'

unfoldable pub claim_reward_by_farm_and_withdraw : Env → FarmId → Contract → Result Contract
claim_reward_by_farm_and_withdraw env farm_id c = do
  assert_one_yocto env
  c' ← claim_reward_by_farm env farm_id c
  found ← get_farm env farm_id c'
  info ← expect found unwrap_none
  internal_execute_withdraw_reward info.reward_token env.predecessor_account_id none c'

unfoldable pub claim_reward_by_seed_and_withdraw : Env → SeedId → Contract → Result Contract
claim_reward_by_seed_and_withdraw env seed_id c = do
  assert_one_yocto env
  c' ← claim_reward_by_seed env seed_id c
  farmer ← get_farmer env.predecessor_account_id c'
  seed ← expect (lookup seed_id c'.seeds) unwrap_none
  withdraw_rewards env.predecessor_account_id farmer seed.farms [] c'

unfoldable pub withdraw_reward : Env → AccountId → Option ℕ → Contract → Result Contract
withdraw_reward env token_id amount c = do
  assert_one_yocto env
  internal_execute_withdraw_reward token_id env.predecessor_account_id amount c

-- `#[private]`: only the contract itself may call it, which this does not check.
unfoldable pub private_withdraw_reward :
    AccountId → AccountId → Option ℕ → Contract → Result Contract
private_withdraw_reward token_id sender_id amount c =
    internal_execute_withdraw_reward token_id sender_id amount c

-- It writes back the seed that it reads.
unfoldable pub force_upgrade_seed : Env → SeedId → Contract → Result Contract
force_upgrade_seed env seed_id c = do
  assert_owner env c
  seed ← get_seed seed_id c
  ok (record c { seeds = insert seed_id seed c.seeds })

unfoldable pub withdraw_nft : Env → SeedId → Text → Text → Contract → Result Contract
withdraw_nft env seed_id nft_contract_id nft_token_id c = do
  assert_one_yocto env
  let sender_id = env.predecessor_account_id
  (c', _) ← internal_nft_withdraw env seed_id sender_id nft_contract_id nft_token_id c
  ok (
      request
        (nft_transfer sender_id nft_token_id nft_contract_id
          (post_withdraw_nft seed_id sender_id nft_contract_id nft_token_id))
        c')

-- The transfer of a withdrawn seed; an NFT is withdrawn otherwise.
unfoldable pub transfer_seed :
    SeedType → SeedId → AccountId → AccountId → ℕ → Contract → Result Contract
transfer_seed ft seed_id seed_contract_id sender_id amount c = ok (
    request
      (ft_transfer sender_id amount seed_contract_id
        (post_withdraw_ft_seed seed_id sender_id amount))
      c)
transfer_seed nft seed_id seed_contract_id sender_id amount c = err use_withdraw_nft

-- The token contract of a seed id is what stands before the first `$`.
unfoldable pub withdraw_seed : Env → SeedId → ℕ → Contract → Result Contract
withdraw_seed env seed_id amount c = do
  assert_one_yocto env
  let sender_id = env.predecessor_account_id
  let (seed_contract_id, _) = split ft_index_tag seed_id
  (c', seed_type) ← internal_seed_withdraw env seed_id sender_id amount c
  transfer_seed seed_type seed_id seed_contract_id sender_id amount c'

-- Stakes an NFT of the given value again, for a farmer and a seed that were read before.
unfoldable pub restake_nft :
    Env
    → SeedId
    → AccountId
    → ContractNftTokenId
    → Option ℕ
    → Farmer
    → FarmSeed
    → Contract
    → Result Contract
restake_nft env seed_id sender_id token none farmer farm_seed c = ok c
restake_nft env seed_id sender_id token (some nft_balance_equivalent) farmer farm_seed c = do
  c₁ ← internal_claim_user_reward_by_seed_id env sender_id seed_id c
  farmer' ← add_seed seed_id nft_balance_equivalent (add_nft seed_id token farmer)
  farm_seed' ← add_amount nft_balance_equivalent farm_seed
  ok (record c₁ {
    farmers = insert sender_id farmer' c₁.farmers;
    seeds = insert seed_id farm_seed' c₁.seeds;
  })

-- A failed transfer stakes the NFT again. The farmer and the seed are read before the claim.
unfoldable pub callback_post_withdraw_nft :
    Env → SeedId → AccountId → Text → Text → Contract → Result Contract
callback_post_withdraw_nft env seed_id sender_id nft_contract_id nft_token_id c = do
  r ← only_result env
  elim r [
    | not_ready ↦ err unreachable_code
    | successful ↦ ok c
    | failed ↦ do
      farmer ← get_farmer sender_id c
      farm_seed ← get_seed seed_id c
      let token = contract_nft_token_id nft_contract_id nft_token_id
      nft_balance ← expect (lookup seed_id c.nft_balance_seeds) unwrap_none
      restake_nft env seed_id sender_id token (get_nft_balance_equivalent nft_balance token) farmer
          farm_seed c
  ]

-- A failed transfer stakes the amount again, after a claim.
unfoldable pub callback_post_withdraw_ft_seed :
    Env → SeedId → AccountId → ℕ → Contract → Result Contract
callback_post_withdraw_ft_seed env seed_id sender_id amount c = do
  r ← only_result env
  elim r [
    | not_ready ↦ err unreachable_code
    | successful ↦ ok c
    | failed ↦ do
      c₁ ← internal_claim_user_reward_by_seed_id env sender_id seed_id c
      farm_seed ← get_seed seed_id c₁
      farm_seed' ← add_amount amount farm_seed
      farmer ← get_farmer sender_id c₁
      farmer' ← add_seed seed_id amount farmer
      ok (record c₁ {
        seeds = insert seed_id farm_seed' c₁.seeds;
        farmers = insert sender_id farmer' c₁.farmers;
      })
  ]
