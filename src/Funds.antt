-- ===== src/Funds.antt =====
-- The reward tokens that the contract answers for (ref-farming/src/*.rs): what farms hold, what farmers
-- have earned, and what is on its way out, against what `reward_info` says has been received.
pub mod Totals
pub mod Farms
pub mod Claims
pub mod Stable
pub mod Keeps
use Prim.Native.Nat.{max}
use nft_farming.Prelude.{ℕ, ◌+◌, ◌≤◌, ◌<◌, List, [], ◌∷◌, if◌then◌else◌}
use nft_farming.Checked.{u128_mod}
use nft_farming.Map.{Map, lookup, unwrap_or}
use nft_farming.Text.{text_eq}
use nft_farming.Utils.{AccountId}
use nft_farming.Farm.{Farm}
use nft_farming.Farmer.{Farmer}
use nft_farming.Claims.Growth.{balance}
use nft_farming.Contract.{
  Contract, Callback, Receipt, transfer, ft_transfer, nft_transfer, post_withdraw_reward,
  post_withdraw_ft_seed, post_withdraw_nft,
}

-- The reward of a farm that no farmer has claimed yet.
abbrev pub unpaid : Farm → ℕ
unpaid farm =
    farm.last_distribution.undistributed + farm.last_distribution.unclaimed
    + farm.amount_of_beneficiary

-- The same, of one reward token.
abbrev pub holding : AccountId → Farm → ℕ
holding token farm = if text_eq farm.terms.reward_token token then unpaid farm else 0

unfoldable pub held_by_farms : AccountId → Map Farm → ℕ
held_by_farms token [] = 0
held_by_farms token ((farm_id, farm) ∷ m) = holding token farm + held_by_farms token m

unfoldable pub earned : AccountId → Map Farmer → ℕ
earned token [] = 0
earned token ((account, farmer) ∷ m) = balance token farmer + earned token m

-- What a receipt sends of a reward token.
abbrev pub sends : AccountId → Receipt → ℕ
sends token (ft_transfer receiver amount contract_id (post_withdraw_reward reward account n)) =
    if text_eq contract_id token then amount else 0
sends token _ = 0

unfoldable pub sent : AccountId → List Receipt → ℕ
sent token [] = 0
sent token (r ∷ rs) = sends token r + sent token rs

-- What a callback gives back after a failed transfer.
abbrev pub gives_back : AccountId → Callback → ℕ
gives_back token (post_withdraw_reward reward account n) = if text_eq reward token then n else 0
gives_back token _ = 0

-- What a receipt may cost: what it sends, or what its callback gives back.
abbrev pub commits : AccountId → Receipt → ℕ
commits token (transfer receiver amount) = 0
commits token (ft_transfer receiver amount contract_id callback) =
    max (sends token (ft_transfer receiver amount contract_id callback)) (gives_back token callback)
commits token (nft_transfer receiver token_id contract_id callback) = gives_back token callback

unfoldable pub committed : AccountId → List Receipt → ℕ
committed token [] = 0
committed token (r ∷ rs) = commits token r + committed token rs

abbrev pub received : AccountId → Contract → ℕ
received token c = unwrap_or (lookup token c.reward_info) 0

-- All that the contract still answers for, receipts of this call included.
abbrev pub owes : AccountId → Contract → ℕ
owes token c =
    earned token c.farmers
    + held_by_farms token c.farms
    + held_by_farms token c.outdated_farms
    + committed token c.receipts

-- What the contract answers for, and what has left it, has been received, which fits 128 bits.
abbrev pub IsFunded : AccountId → ℕ → Contract → Type 0
IsFunded token gone c = (owes token c + gone ≤ received token c) × (received token c < u128_mod)
