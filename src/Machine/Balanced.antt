-- ===== src/Machine/Balanced.antt =====
-- In every reachable state the accounts of every farm, current or outdated, are balanced
-- (ref-farming/src/lib.rs, farm.rs).
use nft_farming.Prelude.{ℕ, Bool, false, Option, arith}
use nft_farming.Checked.{Holds}
use nft_farming.Map.{All-lookup, All-insert}
use nft_farming.Utils.{FarmId, AccountId}
use nft_farming.Contract.{Contract, Env, new_contract}
use nft_farming.Receiver.{receive_reward}
use nft_farming.Stakes.Stability.{IsStable, pays}
use nft_farming.Rewards.{callback_post_withdraw_reward}
use nft_farming.Machine.{IsReachable}
use nft_farming.Machine.Invariant.{IsInvariant}
use nft_farming.Machine.Stable.{IsStable-IsKept}
use nft_farming.Machine.Reach.{reachable}
use nft_farming.Farm.Accounts.{IsBalanced}
use nft_farming.Farm.Balance.{add_reward-IsBalanced}
use nft_farming.Ledger.{
  AllBalanced, claim_by_seed-AllBalanced, claim_by_farm-AllBalanced, internal_add_farm-AllBalanced,
  internal_remove_farm-AllBalanced,
}
use nft_farming.Storage.{
  StorageBalance, internal_register_account, with_balance, register_new, storage_deposit,
  storage_withdraw, storage_unregister,
}

stable : IsStable AllBalanced
stable = record {
  write = λ c account farmer rps seeds known h. h;
  upgrade = λ c seeds h. h;
  ask = λ c r plain h. h;
  pay = pays AllBalanced (λ c account farmer replaces h. h) (λ c r h. h);
  claim = claim_by_seed-AllBalanced;
}

reward :
    (env : Env) (amount : ℕ) (farm_id : FarmId) (c : Contract)
    → AllBalanced c
    → Holds AllBalanced (receive_reward env amount farm_id c)
unfolding receive_reward
reward env amount farm_id c h = grind (
  arith,
  All-lookup IsBalanced farm_id c.farms,
  add_reward-IsBalanced,
  All-insert IsBalanced farm_id,
)

internal_register_account-AllBalanced :
    (account : AccountId) (amount : ℕ) (c : Contract)
    → AllBalanced c
    → Holds AllBalanced (internal_register_account account amount c)
unfolding internal_register_account
internal_register_account-AllBalanced account amount c h = ground arith

with_balance-AllBalanced :
    (env : Env) (account : AccountId) (c : Contract)
    → AllBalanced c
    → Holds (λ (out : Contract × StorageBalance). AllBalanced out.0) (with_balance env account c)
unfolding with_balance
with_balance-AllBalanced env account c h = ground arith

register_new-AllBalanced :
    (env : Env) (account : AccountId) (only : Bool) (c : Contract)
    → AllBalanced c
    → Holds AllBalanced (register_new env account only c)
unfolding register_new
register_new-AllBalanced env account only c h = grind (arith, internal_register_account-AllBalanced)

deposit :
    (env : Env) (account : Option AccountId) (only : Option Bool) (c : Contract)
    → AllBalanced c
    → Holds
        (λ (out : Contract × StorageBalance). AllBalanced out.0)
        (storage_deposit env account only c)
unfolding storage_deposit
deposit env account only c h = grind (
  arith, register_new-AllBalanced, internal_register_account-AllBalanced, with_balance-AllBalanced,
)

withdraw :
    (env : Env) (wanted : Option ℕ) (c : Contract)
    → AllBalanced c
    → Holds (λ (out : Contract × StorageBalance). AllBalanced out.0) (storage_withdraw env wanted c)
unfolding storage_withdraw
withdraw env wanted c h = grind (arith, with_balance-AllBalanced)

unregister :
    (env : Env) (force : Option Bool) (c : Contract)
    → AllBalanced c
    → Holds (λ (out : Contract × Bool). AllBalanced out.0) (storage_unregister env force c)
unfolding storage_unregister
unregister env force c h = ground arith

init : (owner_id : AccountId) → Holds AllBalanced (new_contract false owner_id)
unfolding new_contract
init owner_id = (tt, tt)

give_back_reward :
    (env : Env) (token_id sender_id : AccountId) (amount : ℕ) (c : Contract)
    → AllBalanced c
    → Holds AllBalanced (callback_post_withdraw_reward env token_id sender_id amount c)
unfolding callback_post_withdraw_reward
give_back_reward env token_id sender_id amount c h = ground arith

invariant : IsInvariant AllBalanced
invariant = record {
  calls = record {
    kept = IsStable-IsKept AllBalanced stable;
    owner = λ c owner_id h. h;
    claim_by_farm = claim_by_farm-AllBalanced;
    open_farm = internal_add_farm-AllBalanced;
    close_farm = internal_remove_farm-AllBalanced;
    reward = reward;
    deposit = deposit;
    withdraw = withdraw;
    unregister = unregister;
  };
  init = init;
  ready = λ c h. h;
  give_back_reward = give_back_reward;
}

-- Whatever calls are made, by whom and in what order: in the state that they reach the accounts of
-- every farm, current or outdated, are balanced: its reward is what is undistributed, unclaimed
-- and claimed, it fits 128 bits, it pays for the reward per seed, and a farm that is over has
-- nothing undistributed.
pub reachable-AllBalanced : {c : Contract} → IsReachable c → AllBalanced c
reachable-AllBalanced r = reachable AllBalanced invariant r
