-- ===== src/Utils.antt =====
-- ref-farming/src/utils.rs: constants, identifiers, timestamps, and the value of a staked NFT.
pub mod Ids
use nft_farming.Prelude.{
  ℕ, ◌*◌, ◌/◌, ◌%◌, ◌^◌, Option, none, some, List, [], ◌∷◌, ◌++◌, if◌then◌else◌,
}
use nft_farming.Checked.{
  Result, ok, err, err33_invalid_seed_id, err42_invalid_farm_id, unwrap_none, expect, ◌>>=◌,
  u32_mod,
}
use nft_farming.Text.{Text, contains, split}
use nft_farming.Text.Decimal.{print_usize, parse_usize}
use nft_farming.Map.{Map, lookup}

abbrev pub SeedId : Type 0
SeedId = Text

abbrev pub FarmId : Type 0
FarmId = Text

abbrev pub AccountId : Type 0
AccountId = Text

abbrev pub ContractNftTokenId : Type 0
ContractNftTokenId = Text

-- `HashMap<NFTTokenId, U128>`
abbrev pub NftBalance : Type 0
NftBalance = Map ℕ

abbrev pub min_seed_deposit : ℕ
min_seed_deposit = 1_000_000_000_000_000_000

abbrev pub max_account_length : ℕ
max_account_length = 64

abbrev pub mft_tag : ℕ
mft_tag = b'@'

abbrev pub ft_index_tag : ℕ
ft_index_tag = b'$'

abbrev pub nft_delimeter : ℕ
nft_delimeter = b'@'

abbrev pub paras_series_delimeter : ℕ
paras_series_delimeter = b':'

-- the literal "#" of `parse_farm_id` and `gen_farm_id`
abbrev pub farm_index_tag : ℕ
farm_index_tag = b'#'

-- `v.len() == 1`, with the first piece apart
abbrev pub sole_piece : Text × List Text → Result (Text × Text)
sole_piece (receiver, []) = ok (receiver, receiver)
sole_piece (receiver, _ ∷ _) = err err33_invalid_seed_id

unfoldable pub parse_seed_id : Text → Result (Text × Text)
parse_seed_id lpt_id = sole_piece (split mft_tag lpt_id)

-- `v.len() == 2`, and `v[1].parse::<usize>().unwrap()`
abbrev pub two_pieces : Text × List Text → Result (SeedId × ℕ)
two_pieces (seed_id, []) = err err42_invalid_farm_id
two_pieces (seed_id, index ∷ []) = do n ← expect (parse_usize index) unwrap_none; ok (seed_id, n)
two_pieces (seed_id, _ ∷ _ ∷ _) = err err42_invalid_farm_id

unfoldable pub parse_farm_id : FarmId → Result (SeedId × ℕ)
parse_farm_id farm_id = two_pieces (split farm_index_tag farm_id)

unfoldable pub gen_farm_id : SeedId → ℕ → FarmId
gen_farm_id seed_id index = seed_id ++ farm_index_tag ∷ print_usize index

abbrev pub nanos : ℕ
nanos = 10 ^ 9

-- The product of a `u32` and 10^9 fits a `u64`.
unfoldable pub to_nano : ℕ → ℕ
to_nano timestamp = timestamp * nanos

-- `as u32` keeps the low 32 bits.
unfoldable pub to_sec : ℕ → ℕ
to_sec timestamp = timestamp / nanos % u32_mod

-- `format!("{}{}{}", nft_contract_id, NFT_DELIMETER, nft_token_id)`
unfoldable pub contract_nft_token_id : Text → Text → ContractNftTokenId
contract_nft_token_id nft_contract_id nft_token_id = nft_contract_id ++ nft_delimeter ∷ nft_token_id

-- the entry of what stands before the first `delimeter`
abbrev pub balance_before : ℕ → NftBalance → ContractNftTokenId → Option ℕ
balance_before delimeter nft_balance nft_staked = lookup (split delimeter nft_staked).0 nft_balance

abbrev pub or_else : Option ℕ → Option ℕ → Option ℕ
or_else (some n) other = some n
or_else none other = other

unfoldable pub get_nft_balance_equivalent : NftBalance → ContractNftTokenId → Option ℕ
get_nft_balance_equivalent nft_balance nft_staked = or_else (lookup nft_staked nft_balance) (
    if contains paras_series_delimeter nft_staked
    then or_else (balance_before paras_series_delimeter nft_balance nft_staked)
        (balance_before nft_delimeter nft_balance nft_staked)
    else balance_before nft_delimeter nft_balance nft_staked)
