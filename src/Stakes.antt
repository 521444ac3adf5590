-- ===== src/Stakes.antt =====
-- ref-farming/src/internals.rs: staking and unstaking a seed or an NFT.
pub mod Sum
pub mod Conservation
pub mod Moves
pub mod Unstake
pub mod Stability
pub mod Keeps
pub mod Upkeep
pub mod Running
pub mod Others
use nft_farming.Prelude.{
  ℕ, Bool, true, false, Option, none, some, List, [], ◌∷◌, ◌==◌, if◌then◌else◌,
}
use nft_farming.Checked.{Result, ok, wrong_seed_type, unwrap_none, ◌>>=◌, ◌>>◌, ensure, expect}
use nft_farming.Map.{Map, lookup, insert}
use nft_farming.Text.{Text}
use nft_farming.Utils.{
  SeedId, FarmId, AccountId, ContractNftTokenId, contract_nft_token_id, get_nft_balance_equivalent,
}
use nft_farming.Farmer.{Farmer, UserRps, add_seed, sub_seed, remove_rps, add_nft, sub_nft}
use nft_farming.FarmSeed.{FarmSeed, SeedType, ft, nft, add_amount, sub_amount}
use nft_farming.Contract.{Contract, Env, rps_of}
use nft_farming.Claims.{get_farmer, get_seed, internal_claim_user_reward_by_seed_id}
use nft_farming.Rewards.{withdraw_rewards}

unfoldable pub internal_seed_deposit : Env → SeedId → AccountId → ℕ → Contract → Result Contract
internal_seed_deposit env seed_id sender_id amount c = do
  c₁ ← internal_claim_user_reward_by_seed_id env sender_id seed_id c
  farm_seed ← get_seed seed_id c₁
  farmer ← get_farmer sender_id c₁
  farm_seed' ← add_amount amount farm_seed
  farmer' ← add_seed seed_id amount farmer
  withdraw_rewards sender_id farmer' farm_seed'.farms [] (record c₁ {
    seeds = insert seed_id farm_seed' c₁.seeds;
    farmers = insert sender_id farmer' c₁.farmers;
  })

-- The loop that removes the farmer's rps of the farms of a seed.
unfoldable pub remove_all_rps : List FarmId → Farmer → UserRps → Result (Farmer × UserRps)
remove_all_rps [] farmer rps = ok (farmer, rps)
remove_all_rps (farm_id ∷ rest) farmer rps = do
  (farmer', rps') ← remove_rps farm_id farmer rps
  remove_all_rps rest farmer' rps'

-- What a withdrawal does once the new balances are known.
unfoldable pub settle_withdrawal :
    SeedId → AccountId → ℕ → Farmer → FarmSeed → Contract → Result Contract
settle_withdrawal seed_id sender_id farmer_seed_remain farmer farm_seed c = do
  (farmer', rps) ←
      if farmer_seed_remain == 0
      then remove_all_rps farm_seed.farms farmer (rps_of sender_id c)
      else ok (farmer, rps_of sender_id c)
  withdraw_rewards sender_id farmer' farm_seed.farms [] (record c {
    farmers = insert sender_id farmer' c.farmers;
    user_rps = insert sender_id rps c.user_rps;
    seeds = insert seed_id farm_seed c.seeds;
  })

unfoldable pub internal_seed_withdraw :
    Env → SeedId → AccountId → ℕ → Contract → Result (Contract × SeedType)
internal_seed_withdraw env seed_id sender_id amount c = do
  c₁ ← internal_claim_user_reward_by_seed_id env sender_id seed_id c
  farm_seed ← get_seed seed_id c₁
  farmer ← get_farmer sender_id c₁
  (farmer', farmer_seed_remain) ← sub_seed seed_id amount farmer
  (farm_seed', _) ← sub_amount amount farm_seed
  c₂ ← settle_withdrawal seed_id sender_id farmer_seed_remain farmer' farm_seed' c₁
  ok (c₂, farm_seed'.seed_type)

abbrev pub is_nft : SeedType → Bool
is_nft ft = false
is_nft nft = true

-- The stake of an NFT that is worth `nft_balance_equivalent`. The seed was read before the claim.
unfoldable pub stake_nft :
    Env → SeedId → AccountId → ContractNftTokenId → ℕ → FarmSeed → Contract → Result Contract
stake_nft env seed_id sender_id token nft_balance_equivalent farm_seed c = do
  c₁ ← internal_claim_user_reward_by_seed_id env sender_id seed_id c
  farmer ← get_farmer sender_id c₁
  farmer' ← add_seed seed_id nft_balance_equivalent (add_nft seed_id token farmer)
  farm_seed' ← add_amount nft_balance_equivalent farm_seed
  withdraw_rewards sender_id farmer' farm_seed'.farms [] (record c₁ {
    farmers = insert sender_id farmer' c₁.farmers;
    seeds = insert seed_id farm_seed' c₁.seeds;
  })

-- `false` where the NFT has no value under the seed.
unfoldable pub stake_if_valued :
    Env
    → SeedId
    → AccountId
    → ContractNftTokenId
    → Option ℕ
    → FarmSeed
    → Contract
    → Result (Contract × Bool)
stake_if_valued env seed_id sender_id token none farm_seed c = ok (c, false)
stake_if_valued env seed_id sender_id token (some nft_balance_equivalent) farm_seed c = do
  c' ← stake_nft env seed_id sender_id token nft_balance_equivalent farm_seed c
  ok (c', true)

unfoldable pub internal_nft_deposit :
    Env → SeedId → AccountId → Text → Text → Contract → Result (Contract × Bool)
internal_nft_deposit env seed_id sender_id nft_contract_id nft_token_id c = do
  farm_seed ← get_seed seed_id c
  ensure (is_nft farm_seed.seed_type) wrong_seed_type
  let token = contract_nft_token_id nft_contract_id nft_token_id
  nft_balance ← expect (lookup seed_id c.nft_balance_seeds) unwrap_none
  stake_if_valued env seed_id sender_id token (get_nft_balance_equivalent nft_balance token)
      farm_seed c

unfoldable pub internal_nft_withdraw :
    Env → SeedId → AccountId → Text → Text → Contract → Result (Contract × ContractNftTokenId)
internal_nft_withdraw env seed_id sender_id nft_contract_id nft_token_id c = do
  c₁ ← internal_claim_user_reward_by_seed_id env sender_id seed_id c
  farm_seed ← get_seed seed_id c₁
  farmer ← get_farmer sender_id c₁
  let token = contract_nft_token_id nft_contract_id nft_token_id
  let (farmer₁, taken) = sub_nft seed_id token farmer
  _ ← expect taken unwrap_none
  nft_balance ← expect (lookup seed_id c₁.nft_balance_seeds) unwrap_none
  nft_balance_equivalent ← expect (get_nft_balance_equivalent nft_balance token) unwrap_none
  (farmer₂, farmer_seed_remain) ← sub_seed seed_id nft_balance_equivalent farmer₁
  (farm_seed', _) ← sub_amount nft_balance_equivalent farm_seed
  c₂ ← settle_withdrawal seed_id sender_id farmer_seed_remain farmer₂ farm_seed' c₁
  ok (c₂, token)
