-- ===== src/Contract.antt =====
-- ref-farming/src/lib.rs: the state of the contract, what a call reads of the chain, and what it
-- asks the chain to do. A method returns the new state, or panics; a panic undoes the call.
use nft_farming.Prelude.{ℕ, Bool, not, List, [], ◌∷◌, ◌++◌}
use nft_farming.Checked.{Result, ok, ensure, already_initialized, ◌>>◌}
use nft_farming.Map.{Map, unwrap_or, lookup}
use nft_farming.Text.{Text}
use nft_farming.Utils.{SeedId, AccountId, NftBalance}
use nft_farming.Farm.{Farm}
use nft_farming.FarmSeed.{FarmSeed}
use nft_farming.Farmer.{Farmer, UserRps}

-- the callbacks of `TokenPostActions` that follow a transfer
pub data Callback : Type 0 where
  post_withdraw_reward : AccountId → AccountId → ℕ → Callback
  post_withdraw_ft_seed : SeedId → AccountId → ℕ → Callback
  post_withdraw_nft : SeedId → AccountId → Text → Text → Callback

-- what a call asks for: the receiver, what is sent, the contract called, and the callback
pub data Receipt : Type 0 where
  transfer : AccountId → ℕ → Receipt
  ft_transfer : AccountId → ℕ → AccountId → Callback → Receipt
  nft_transfer : AccountId → Text → AccountId → Callback → Receipt

-- `ContractData`, with the stored entries of every farmer's `user_rps`, by account, and the receipts
-- that the call has made so far.
pub record Contract : Type 0 where
  pub owner_id : AccountId
  pub seeds : Map FarmSeed
  pub farmers : Map Farmer
  pub user_rps : Map UserRps
  pub farms : Map Farm
  pub outdated_farms : Map Farm
  pub nft_balance_seeds : Map NftBalance
  pub farmer_count : ℕ
  pub reward_info : Map ℕ
  pub receipts : List Receipt

pub data PromiseResult : Type 0 where
  not_ready successful failed : PromiseResult

-- what the host tells a call (`near_sdk::env`)
pub record Env : Type 0 where
  pub predecessor_account_id : AccountId
  pub signer_account_id : AccountId
  pub block_timestamp : ℕ
  pub attached_deposit : ℕ
  pub storage_byte_cost : ℕ
  pub storage_usage : Contract → ℕ
  pub promise_results : List PromiseResult

unfoldable pub new_contract : Bool → AccountId → Result Contract
new_contract state_exists owner_id = do
  ensure (not state_exists) already_initialized
  ok (record {
    owner_id = owner_id;
    seeds = [];
    farmers = [];
    user_rps = [];
    farms = [];
    outdated_farms = [];
    nft_balance_seeds = [];
    farmer_count = 0;
    reward_info = [];
    receipts = [];
  })

-- The stored entries of an account's `user_rps`.
abbrev pub rps_of : AccountId → Contract → UserRps
rps_of account c = unwrap_or (lookup account c.user_rps) []

abbrev pub request : Receipt → Contract → Contract
request r c = record c { receipts = c.receipts ++ r ∷ [] }
