-- ===== src/Farmer.antt =====
-- ref-farming/src/farmer.rs: what the contract keeps for one account. `VersionedFarmer` has the one
-- variant `V101`, so a versioned farmer is the farmer that it holds. The entries of `user_rps`, a
-- `LookupMap`, stay in the storage when a farmer is copied or removed: the methods that use them
-- take them beside the farmer, as `rps`.
pub mod Rps
pub mod Footprint
pub mod Bytes
use nft_farming.Prelude.{
  ℕ, ◌+◌, ◌*◌, Bool, true, false, Option, none, some, List, [], ◌∷◌, ltb, leb, ◌==◌, if◌then◌else◌,
  length,
}
use nft_farming.Checked.{
  Result, ok, err21_token_not_reg, err22_not_enough_tokens, err31_seed_not_exist,
  err32_not_enough_seed, ◌>>=◌, ◌>>◌, ensure, expect, checked_add, checked_sub, checked_mul,
  u32_mod, u128_mod,
}
use nft_farming.Map
use nft_farming.Map.{Map, lookup, insert, remove, is_some, unwrap_or}
use nft_farming.Map.Set
use nft_farming.Text.{Text}
use nft_farming.Utils.{SeedId, FarmId, AccountId, ContractNftTokenId, max_account_length}

abbrev pub min_farmer_length : ℕ
min_farmer_length = max_account_length + 16 + 4 * 3

pub record Farmer : Type 0 where
  pub farmer_id : AccountId
  pub amount : ℕ
  pub rewards : Map ℕ
  pub seeds : Map ℕ
  pub rps_count : ℕ
  pub nft_seeds : Map (List ContractNftTokenId)

-- the stored entries of `user_rps`
abbrev pub UserRps : Type 0
UserRps = Map ℕ

-- `VersionedFarmer::new`
unfoldable pub new_farmer : AccountId → ℕ → Farmer
new_farmer farmer_id amount = record {
  farmer_id = farmer_id;
  amount = amount;
  rewards = [];
  seeds = [];
  rps_count = 0;
  nft_seeds = [];
}

unfoldable pub add_reward : AccountId → ℕ → Farmer → Result Farmer
add_reward token amount farmer = elim (lookup token farmer.rewards) [
  | none ↦ ok (record farmer { rewards = insert token amount farmer.rewards })
  | some x ↦ do
    sum ← checked_add u128_mod x amount
    ok (record farmer { rewards = insert token sum farmer.rewards })
]

-- An amount of 0 subtracts the whole balance. Returns the amount that was subtracted.
unfoldable pub sub_reward : AccountId → ℕ → Farmer → Result (Farmer × ℕ)
sub_reward token amount farmer = do
  value ← expect (lookup token farmer.rewards) err21_token_not_reg
  ensure (leb amount value) err22_not_enough_tokens
  if amount == 0 then ok (record farmer { rewards = remove token farmer.rewards }, value) else (do
    rest ← checked_sub value amount
    ok (record farmer { rewards = insert token rest farmer.rewards }, amount))

-- the balance of a seed, 0 where there is none
abbrev pub seed_balance : SeedId → Farmer → ℕ
seed_balance seed_id farmer = unwrap_or (lookup seed_id farmer.seeds) 0

unfoldable pub add_seed : SeedId → ℕ → Farmer → Result Farmer
add_seed seed_id amount farmer =
    if ltb 0 amount
    then (do
      sum ← checked_add u128_mod amount (seed_balance seed_id farmer)
      ok (record farmer { seeds = insert seed_id sum farmer.seeds }))
    else ok farmer

-- Returns the balance that remains. No entry of 0 is kept.
unfoldable pub sub_seed : SeedId → ℕ → Farmer → Result (Farmer × ℕ)
sub_seed seed_id amount farmer = do
  prev_balance ← expect (lookup seed_id farmer.seeds) err31_seed_not_exist
  ensure (leb amount prev_balance) err32_not_enough_seed
  cur_balance ← checked_sub prev_balance amount
  ok (
    record farmer {
      seeds =
          if ltb 0 cur_balance
          then insert seed_id cur_balance farmer.seeds
          else remove seed_id farmer.seeds;
    },
    cur_balance,
  )

unfoldable pub get_rps : FarmId → UserRps → ℕ
get_rps farm_id rps = unwrap_or (lookup farm_id rps) 0

unfoldable pub set_rps : FarmId → ℕ → Farmer → UserRps → Result (Farmer × UserRps)
set_rps farm_id value farmer rps = do
  rps_count ←
      if is_some (lookup farm_id rps)
      then ok farmer.rps_count
      else checked_add u32_mod farmer.rps_count 1
  ok (record farmer { rps_count = rps_count }, insert farm_id value rps)

unfoldable pub remove_rps : FarmId → Farmer → UserRps → Result (Farmer × UserRps)
remove_rps farm_id farmer rps =
    if is_some (lookup farm_id rps)
    then (do
      rps_count ← checked_sub farmer.rps_count 1
      ok (record farmer { rps_count = rps_count }, remove farm_id rps))
    else ok (farmer, rps)

-- The bytes of a farmer. A count of entries fits 32 bits, so the sum does not overflow.
unfoldable pub farmer_bytes : Farmer → ℕ
farmer_bytes farmer =
    min_farmer_length
    + length farmer.rewards * (4 + max_account_length + 16)
    + length farmer.seeds * (4 + max_account_length + 16)
    + farmer.rps_count * (4 + 1 + 2 * max_account_length + 32)

unfoldable pub storage_usage : ℕ → Farmer → Result ℕ
storage_usage storage_byte_cost farmer =
    checked_mul u128_mod (farmer_bytes farmer) storage_byte_cost

-- The set of a seed that is not there is empty; the stored one of an account that left may not be.
unfoldable pub add_nft : SeedId → ContractNftTokenId → Farmer → Farmer
add_nft seed_id contract_nft_token_id farmer = record farmer {
  nft_seeds =
      insert seed_id
        (Set.insert contract_nft_token_id (unwrap_or (lookup seed_id farmer.nft_seeds) []))
        farmer.nft_seeds;
}

-- whether a set that may be missing has the member
abbrev pub has_nft : ContractNftTokenId → Option (List ContractNftTokenId) → Bool
has_nft token none = false
has_nft token (some tokens) = Set.contains token tokens

-- `none` where the token is not staked under the seed.
unfoldable pub sub_nft : SeedId → ContractNftTokenId → Farmer → Farmer × Option ContractNftTokenId
sub_nft seed_id token farmer = elim (lookup seed_id farmer.nft_seeds) [
  | none ↦ (farmer, none)
  | some tokens ↦ (
    record farmer { nft_seeds = insert seed_id (Set.remove token tokens) farmer.nft_seeds },
    if Set.contains token tokens then some token else none,
  )
]
