-- ===== src/Machine.antt =====
-- The contract as a machine (ref-farming/src/*.rs): the calls that change state, one at a time, in
-- any order, from any account and with any result of a promise. That only the contract itself may
-- call a `#[private]` method is not checked, which makes more states reachable.
pub mod Invariant
pub mod Stable
pub mod Keeps
pub mod Reach
pub mod Counted
pub mod Balanced
pub mod Staked
pub mod Guards
pub mod Untouched
pub mod Others
pub mod Steady
pub mod Ruled
pub mod Enough
pub mod Listed
use nft_farming.Prelude.{sym, ℕ, ◌≡◌, Bool, false, Option, List, [], ◌∷◌}
use nft_farming.Checked.{Result, ok, ◌>>=◌, >>=-eq-ok}
use nft_farming.Text.{Text}
use nft_farming.Utils.{SeedId, FarmId, AccountId, NftBalance}
use nft_farming.Farm.{FarmTerms}
use nft_farming.FarmSeed.{FarmSeedMetadata}
use nft_farming.Contract.{Contract, Env, new_contract}
use nft_farming.Calls
use nft_farming.Owner
use nft_farming.Receiver
use nft_farming.Rewards
use nft_farming.Storage

pub data Call : Type 0 where
  create_simple_farm : FarmTerms → Option ℕ → Option NftBalance → Option FarmSeedMetadata → Call
  remove_user_rps_by_farm : FarmId → Call
  claim_reward_by_farm : FarmId → Call
  claim_reward_by_seed : SeedId → Call
  claim_reward_by_farm_and_withdraw : FarmId → Call
  claim_reward_by_seed_and_withdraw : SeedId → Call
  withdraw_reward : AccountId → Option ℕ → Call
  private_withdraw_reward : AccountId → AccountId → Option ℕ → Call
  callback_post_withdraw_reward : AccountId → AccountId → ℕ → Call
  force_upgrade_seed : SeedId → Call
  withdraw_nft : SeedId → Text → Text → Call
  withdraw_seed : SeedId → ℕ → Call
  callback_post_withdraw_nft : SeedId → AccountId → Text → Text → Call
  callback_post_withdraw_ft_seed : SeedId → AccountId → ℕ → Call
  ft_on_transfer : AccountId → ℕ → Text → Call
  nft_on_transfer : AccountId → AccountId → Text → Text → Call
  set_owner : AccountId → Call
  force_clean_farm : FarmId → Call
  modify_seed_min_deposit : SeedId → ℕ → Call
  storage_deposit : Option AccountId → Option Bool → Call
  storage_withdraw : Option ℕ → Call
  storage_unregister : Option Bool → Call

-- the state that a method with a result leaves
abbrev pub state_of : {A : Type 0} → Result (Contract × A) → Result Contract
state_of m = m >>= λ out. ok out.0

unfoldable pub execute : Env → Call → Contract → Result Contract
execute env (Call.create_simple_farm terms min_deposit table metadata) c =
    state_of (Calls.create_simple_farm env terms min_deposit table metadata c)
execute env (Call.remove_user_rps_by_farm farm_id) c =
    state_of (Calls.remove_user_rps_by_farm env farm_id c)
execute env (Call.claim_reward_by_farm farm_id) c = Calls.claim_reward_by_farm env farm_id c
execute env (Call.claim_reward_by_seed seed_id) c = Calls.claim_reward_by_seed env seed_id c
execute env (Call.claim_reward_by_farm_and_withdraw farm_id) c =
    Calls.claim_reward_by_farm_and_withdraw env farm_id c
execute env (Call.claim_reward_by_seed_and_withdraw seed_id) c =
    Calls.claim_reward_by_seed_and_withdraw env seed_id c
execute env (Call.withdraw_reward token_id amount) c = Calls.withdraw_reward env token_id amount c
execute env (Call.private_withdraw_reward token_id sender_id amount) c =
    Calls.private_withdraw_reward token_id sender_id amount c
execute env (Call.callback_post_withdraw_reward token_id sender_id amount) c =
    Rewards.callback_post_withdraw_reward env token_id sender_id amount c
execute env (Call.force_upgrade_seed seed_id) c = Calls.force_upgrade_seed env seed_id c
execute env (Call.withdraw_nft seed_id nft_contract_id nft_token_id) c =
    Calls.withdraw_nft env seed_id nft_contract_id nft_token_id c
execute env (Call.withdraw_seed seed_id amount) c = Calls.withdraw_seed env seed_id amount c
execute env (Call.callback_post_withdraw_nft seed_id sender_id nft_contract_id nft_token_id) c =
    Calls.callback_post_withdraw_nft env seed_id sender_id nft_contract_id nft_token_id c
execute env (Call.callback_post_withdraw_ft_seed seed_id sender_id amount) c =
    Calls.callback_post_withdraw_ft_seed env seed_id sender_id amount c
execute env (Call.ft_on_transfer sender_id amount msg) c =
    state_of (Receiver.ft_on_transfer env sender_id amount msg c)
execute env (Call.nft_on_transfer sender_id previous_owner_id token_id msg) c =
    state_of (Receiver.nft_on_transfer env sender_id previous_owner_id token_id msg c)
execute env (Call.set_owner owner_id) c = Owner.set_owner env owner_id c
execute env (Call.force_clean_farm farm_id) c = state_of (Owner.force_clean_farm env farm_id c)
execute env (Call.modify_seed_min_deposit seed_id min_deposit) c =
    Owner.modify_seed_min_deposit env seed_id min_deposit c
execute env (Call.storage_deposit account only) c =
    state_of (Storage.storage_deposit env account only c)
execute env (Call.storage_withdraw wanted) c = state_of (Storage.storage_withdraw env wanted c)
execute env (Call.storage_unregister force) c = state_of (Storage.storage_unregister env force c)

-- The states of a deployed contract. A call starts with no receipts, and one that panics leaves the
-- state as it was.
pub data IsReachable : Contract → Type 0 where
  deployed :
      (owner_id : AccountId) {c : Contract} → new_contract false owner_id ≡ ok c → IsReachable c
  called :
      {c c' : Contract}
      → IsReachable c
      → (env : Env) (call : Call) → execute env call (record c { receipts = [] }) ≡ ok c'
      → IsReachable c'

-- A sequence of calls, none of which panics.
unfoldable pub run : List (Env × Call) → Contract → Result Contract
run [] c = ok c
run ((env, call) ∷ calls) c = execute env call (record c { receipts = [] }) >>= run calls

pub run-IsReachable :
    (calls : List (Env × Call)) {c c' : Contract}
    → IsReachable c
    → run calls c ≡ ok c'
    → IsReachable c'
unfolding run
run-IsReachable [] {c = c} {c' = c'} r e = let same : c ≡ c' = cc e in rw (sym same) r
run-IsReachable ((env, call) ∷ calls) {c = c} r e =
    let (c₁, done, rest) =
      >>=-eq-ok (execute env call (record c { receipts = [] })) (run calls) e in
    run-IsReachable calls (called r env call done) rest
