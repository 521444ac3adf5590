-- ===== src/View.antt =====
-- ref-farming/src/view.rs and `SeedInfo` of farm_seed.rs: the views of the contract. A map from
-- which no key is ever removed keeps its keys in the order of insertion. Farms are removed from
-- `farms`, so the view that pages over it takes the order that the storage has.
pub mod Pages
pub mod Orders
use nft_farming.Prelude.{ℕ, zero, suc, Option, none, some, List, [], ◌∷◌, length, if◌then◌else◌}
use nft_farming.Checked.{Result, ok, unwrap_none, ◌>>=◌, expect, checked_add, u64_mod}
use nft_farming.Map.{Map, lookup, unwrap_or}
use nft_farming.Text.{Text, codes, contains, split}
use nft_farming.Text.Decimal.{print_usize}
use nft_farming.Utils.{
  SeedId, FarmId, AccountId, ContractNftTokenId, NftBalance, nft_delimeter, paras_series_delimeter,
}
use nft_farming.Farm.{Farm}
use nft_farming.FarmSeed.{FarmSeed, FarmSeedMetadata, SeedType, ft, nft}
use nft_farming.Farmer.{Farmer}
use nft_farming.Contract.{Contract, Env, rps_of}
use nft_farming.Claims.{
  get_farmer, get_farmer_default, get_farmer_wrapped, get_seed_wrapped, internal_get_reward,
}
use nft_farming.FarmInfo.{FarmInfo, farm_info, infos}

pub record Metadata : Type 0 where
  pub version : Text
  pub owner_id : AccountId
  pub farmer_count : ℕ
  pub farm_count : ℕ
  pub seed_count : ℕ
  pub reward_count : ℕ

-- The version is that of the build.
unfoldable pub get_metadata : Text → Contract → Metadata
get_metadata version c = record {
  version = version;
  owner_id = c.owner_id;
  farmer_count = c.farmer_count;
  farm_count = length c.farms;
  seed_count = length c.seeds;
  reward_count = length c.reward_info;
}

unfoldable pub get_number_of_farms : Contract → ℕ
get_number_of_farms c = length c.farms

unfoldable pub get_number_of_outdated_farms : Contract → ℕ
get_number_of_outdated_farms c = length c.outdated_farms

-- the entries from an index on, as many as there are but no more than a limit
unfoldable pub slice : {A : Type 0} → ℕ → ℕ → List A → List A
slice from_index limit [] = []
slice (suc from_index) limit (x ∷ xs) = slice from_index limit xs
slice zero zero (x ∷ xs) = []
slice zero (suc limit) (x ∷ xs) = x ∷ slice zero limit xs

-- `(from_index..min(from_index + limit, keys.len()))`
unfoldable pub page : {A : Type 0} → ℕ → ℕ → List A → Result (List A)
page from_index limit xs = do
  _ ← checked_add u64_mod from_index limit
  ok (slice from_index limit xs)

unfoldable pub farm_infos : Env → Map Farm → Result (List FarmInfo)
farm_infos env [] = ok []
farm_infos env ((farm_id, farm) ∷ rest) = do
  info ← farm_info env.block_timestamp farm
  others ← farm_infos env rest
  ok (info ∷ others)

unfoldable pub list_outdated_farms : Env → ℕ → ℕ → Contract → Result (List FarmInfo)
list_outdated_farms env from_index limit c = do
  farms ← page from_index limit c.outdated_farms
  farm_infos env farms

-- `keys` is `farms.keys_as_vector()`.
unfoldable pub list_farms : Env → List FarmId → ℕ → ℕ → Contract → Result (List FarmInfo)
list_farms env keys from_index limit c = do ids ← page from_index limit keys; infos env c ids

unfoldable pub list_rewards_info : ℕ → ℕ → Contract → Result (Map ℕ)
list_rewards_info from_index limit c = page from_index limit c.reward_info

unfoldable pub list_rewards : AccountId → Contract → Map ℕ
list_rewards account_id c = (get_farmer_default account_id c).rewards

unfoldable pub get_reward : AccountId → AccountId → Contract → ℕ
get_reward account_id token_id c = internal_get_reward account_id token_id c

unfoldable pub amounts : Map FarmSeed → Map ℕ
amounts [] = []
amounts ((seed_id, seed) ∷ rest) = (seed_id, seed.amount) ∷ amounts rest

unfoldable pub list_seeds : ℕ → ℕ → Contract → Result (Map ℕ)
list_seeds from_index limit c = do seeds ← page from_index limit c.seeds; ok (amounts seeds)

unfoldable pub list_user_seeds : AccountId → Contract → Map ℕ
list_user_seeds account_id c = elim (get_farmer_wrapped account_id c) [
  | none ↦ []
  | some farmer ↦ farmer.seeds
]

unfoldable pub list_user_nft_seeds : AccountId → Contract → Map (List ContractNftTokenId)
list_user_nft_seeds account_id c = elim (get_farmer_wrapped account_id c) [
  | none ↦ []
  | some farmer ↦ farmer.nft_seeds
]

pub record SeedInfo : Type 0 where
  pub seed_id : SeedId
  pub seed_type : Text
  pub farms : List FarmId
  pub next_index : ℕ
  pub amount : ℕ
  pub min_deposit : ℕ
  pub nft_balance : Option NftBalance
  pub title : Option Text
  pub media : Option Text

abbrev pub seed_type_text : SeedType → Text
seed_type_text ft = codes "FT"
seed_type_text nft = codes "NFT"

abbrev pub shown_title : Option FarmSeedMetadata → Text
shown_title none = []
shown_title (some metadata) = unwrap_or metadata.title []

abbrev pub shown_media : Option FarmSeedMetadata → Text
shown_media none = []
shown_media (some metadata) = unwrap_or metadata.media []

-- `SeedInfo::from(&farm_seed)`
unfoldable pub seed_info : FarmSeed → SeedInfo
seed_info fs = record {
  seed_id = fs.seed_id;
  seed_type = seed_type_text fs.seed_type;
  farms = fs.farms;
  next_index = fs.next_index;
  amount = fs.amount;
  min_deposit = fs.min_deposit;
  nft_balance = none;
  title = some (shown_title fs.metadata);
  media = some (shown_media fs.metadata);
}

unfoldable pub get_seed_info : SeedId → Contract → Option SeedInfo
get_seed_info seed_id c = elim (get_seed_wrapped seed_id c) [
  | none ↦ none
  | some farm_seed ↦
      some (record (seed_info farm_seed) { nft_balance = lookup seed_id c.nft_balance_seeds })
]

unfoldable pub seed_infos : Map NftBalance → Map FarmSeed → Map SeedInfo
seed_infos tables [] = []
seed_infos tables ((seed_id, seed) ∷ rest) =
    (seed_id, record (seed_info seed) { nft_balance = lookup seed_id tables })
    ∷ seed_infos tables rest

unfoldable pub list_seeds_info : ℕ → ℕ → Contract → Result (Map SeedInfo)
list_seeds_info from_index limit c = do
  seeds ← page from_index limit c.seeds
  ok (seed_infos c.nft_balance_seeds seeds)

unfoldable pub get_user_rps : AccountId → FarmId → Contract → Result Text
get_user_rps account_id farm_id c = do
  farmer ← get_farmer account_id c
  elim (lookup farm_id (rps_of account_id c)) [
    | some rps ↦ ok (print_usize rps)
    | none ↦ ok (codes "0")
  ]

-- the entry of what stands before the first delimeter, and else the other result
abbrev pub entry_before : ℕ → NftBalance → Text → Option ℕ → Option ℕ
entry_before delimeter nft_balance nft_token_id other =
    elim (lookup (split delimeter nft_token_id).0 nft_balance) [ some n ↦ some n | none ↦ other ]

-- The view of an NFT's value, which has its own copy of the search.
unfoldable pub view_nft_balance_equivalent : SeedId → Text → Contract → Result (Option ℕ)
view_nft_balance_equivalent seed_id nft_token_id c = do
  nft_balance ← expect (lookup seed_id c.nft_balance_seeds) unwrap_none
  ok (elim (lookup nft_token_id nft_balance) [
    | some n ↦ some n
    | none ↦
        if contains paras_series_delimeter nft_token_id
        then entry_before paras_series_delimeter nft_balance nft_token_id
            (entry_before nft_delimeter nft_balance nft_token_id none)
        else entry_before nft_delimeter nft_balance nft_token_id none
  ])
