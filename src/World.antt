-- ===== src/World.antt =====
-- The contract among the token contracts (ref-farming/src/lib.rs): a call's receipts are in flight until
-- the token contract has run, in any order and with other calls in between, and then the callback of
-- the receipt runs, once. The contract's state and its receipts are all that this needs of the chain.
pub mod Solvent
pub mod Bounced
pub mod Claiming
pub mod Reach
pub mod Staking
pub mod Nfts
pub mod Paying
use nft_farming.Prelude.{◌≡◌, ℕ, false, Option, none, some, List, [], ◌∷◌, ◌++◌}
use nft_farming.Checked.{Result, ok, err}
use nft_farming.Utils.{AccountId}
use nft_farming.Contract.{
  Contract, Env, Callback, post_withdraw_reward, post_withdraw_ft_seed, post_withdraw_nft, Receipt,
  transfer, ft_transfer, nft_transfer, PromiseResult, successful, failed, new_contract,
}
use nft_farming.Machine.{Call, execute}

pub record World : Type 0 where
  pub contract : Contract
  pub in_flight : List Receipt
  pub delivered : List Receipt

-- What a call leaves: its state, with its receipts in flight. A call that panics changes nothing.
unfoldable pub settle : Result Contract → World → World
settle (err e) w = w
settle (ok c) w = record w {
  contract = record c { receipts = [] };
  in_flight = w.in_flight ++ c.receipts;
}

unfoldable pub invoke : Env → Call → World → World
invoke env call w = settle (execute env call w.contract) w

abbrev pub call_of : Callback → Call
call_of (post_withdraw_reward token_id sender_id amount) =
    Call.callback_post_withdraw_reward token_id sender_id amount
call_of (post_withdraw_ft_seed seed_id sender_id amount) =
    Call.callback_post_withdraw_ft_seed seed_id sender_id amount
call_of (post_withdraw_nft seed_id sender_id nft_contract_id nft_token_id) =
    Call.callback_post_withdraw_nft seed_id sender_id nft_contract_id nft_token_id

abbrev pub callback_of : Receipt → Option Callback
callback_of (transfer receiver amount) = none
callback_of (ft_transfer receiver amount contract_id callback) = some callback
callback_of (nft_transfer receiver token_id contract_id callback) = some callback

abbrev pub with_result : PromiseResult → Env → Env
with_result result env = record env { promise_results = result ∷ [] }

-- The callback of a receipt, with the result of its transfer.
unfoldable pub conclude : Env → PromiseResult → Receipt → World → World
conclude env result r w = elim (callback_of r) [
  | none ↦ w
  | some callback ↦ invoke (with_result result env) (call_of callback) w
]

-- A call that is not one of the callbacks, which only the contract itself may call.
abbrev pub IsDirect : Call → Type 0
IsDirect (Call.callback_post_withdraw_reward token_id sender_id amount) = ⊥
IsDirect (Call.callback_post_withdraw_ft_seed seed_id sender_id amount) = ⊥
IsDirect (Call.callback_post_withdraw_nft seed_id sender_id contract_id token_id) = ⊥
IsDirect _ = Unit

-- What can happen next: a call, or the end of a receipt that is in flight.
pub data Step (w : World) : World → Type 0 where
  called : (env : Env) (call : Call) → IsDirect call → Step w (invoke env call w)
  arrived :
      (env : Env) (before : List Receipt) (r : Receipt) (after : List Receipt)
      → w.in_flight ≡ before ++ r ∷ after
      → Step w (
          conclude env successful r
            (record w { in_flight = before ++ after; delivered = r ∷ w.delivered }))
  bounced :
      (env : Env) (before : List Receipt) (r : Receipt) (after : List Receipt)
      → w.in_flight ≡ before ++ r ∷ after
      → Step w (conclude env failed r (record w { in_flight = before ++ after }))

pub data IsPossible : World → Type 0 where
  started :
      (owner_id : AccountId) {c : Contract}
      → new_contract false owner_id ≡ ok c
      → IsPossible (record { contract = c; in_flight = []; delivered = [] })
  next : {w w' : World} → IsPossible w → Step w w' → IsPossible w'
