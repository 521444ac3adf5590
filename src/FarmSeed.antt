-- ===== src/FarmSeed.antt =====
-- ref-farming/src/farm_seed.rs: a seed, its farms, and the amount of it that is staked.
use nft_farming.Prelude.{ℕ, Bool, Option, List, [], leb, if◌then◌else◌}
use nft_farming.Checked.{
  Result, ok, err500, ◌>>=◌, ◌>>◌, ensure, checked_add, checked_sub, u128_mod,
}
use nft_farming.Text.{Text}
use nft_farming.Utils.{SeedId, FarmId, parse_seed_id}

pub data SeedType : Type 0 where
  ft nft : SeedType

pub record FarmSeedMetadata : Type 0 where
  pub title : Option Text
  pub media : Option Text

pub record FarmSeed : Type 0 where
  pub seed_id : SeedId
  pub seed_type : SeedType
  pub farms : List FarmId
  pub next_index : ℕ
  pub amount : ℕ
  pub min_deposit : ℕ
  pub metadata : Option FarmSeedMetadata

-- `FarmSeed::new`, which parses the id only for its panic
unfoldable pub new_farm_seed : SeedId → ℕ → Bool → Option FarmSeedMetadata → Result FarmSeed
new_farm_seed seed_id min_deposit is_nft_balance metadata = do
  (token_id, token_index) ← parse_seed_id seed_id
  ok (record {
    seed_id = seed_id;
    seed_type = if is_nft_balance then nft else ft;
    farms = [];
    next_index = 0;
    amount = 0;
    min_deposit = min_deposit;
    metadata = metadata;
  })

unfoldable pub add_amount : ℕ → FarmSeed → Result FarmSeed
add_amount amount seed = do
  sum ← checked_add u128_mod seed.amount amount
  ok (record seed { amount = sum })

-- Returns the amount that remains.
unfoldable pub sub_amount : ℕ → FarmSeed → Result (FarmSeed × ℕ)
sub_amount amount seed = do
  ensure (leb amount seed.amount) err500
  rest ← checked_sub seed.amount amount
  ok (record seed { amount = rest }, rest)
