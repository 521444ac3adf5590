-- ===== src/Upgrade.antt =====
-- ref-farming/src/owner.rs, `upgrade`: the raw export of the wasm build by which the owner replaces the
-- contract's code. Its calls of the host build one promise, which is its result here. The code
-- deployed is the input of the call, and the state is what the host reads, if there is any.
use nft_farming.Prelude.{ℕ, ◌+◌, ◌≡◌, refl, Option, some, List, [], ◌∷◌, arith}
use nft_farming.Checked.{
  Result, ok, unwrap_none, ◌>>=◌, ◌>>◌, ensure, expect, checked_sub, Holds, Holds-bind,
  err_not_allowed,
}
use nft_farming.Text.{Text, codes, text_eq, text_eq_iff}
use nft_farming.Utils.{AccountId}
use nft_farming.Contract.{Contract, Env}
use nft_farming.Calls.{assert_owner}

abbrev pub gas_for_migrate_call : ℕ
gas_for_migrate_call = 10_000_000_000_000

pub data Action : Type 0 where
  deploy_contract : Text → Action
  function_call : Text → Text → ℕ → ℕ → Action

-- `promise_batch_create` on an account, and the actions that follow
pub record Promise : Type 0 where
  pub account_id : AccountId
  pub actions : List Action

-- what the host tells of the running call
pub record Host : Type 0 where
  pub input : Text
  pub current_account_id : AccountId
  pub prepaid_gas : ℕ
  pub used_gas : ℕ
  -- the 16 bytes at address 0, which the call of `migrate` names for its deposit
  pub word_at_zero : ℕ

unfoldable pub upgrade : Env → Host → Option Contract → Result Promise
upgrade env host state = do
  contract ← expect state unwrap_none
  assert_owner env contract
  unused ← checked_sub host.prepaid_gas host.used_gas
  attached_gas ← checked_sub unused gas_for_migrate_call
  ok (record {
    account_id = host.current_account_id;
    actions =
        deploy_contract host.input
        ∷ function_call (codes "migrate") [] host.word_at_zero attached_gas
        ∷ [];
  })

-- The owner's promise to the contract itself: the new code, then `migrate` with the gas that is left.
abbrev pub IsUpgrade : Env → Host → Option Contract → Promise → Type 0
IsUpgrade env host state promise =
    (c : Contract) × (gas : ℕ) × (state ≡ some c)
    × (env.predecessor_account_id ≡ c.owner_id)
    × (promise.account_id ≡ host.current_account_id)
    × (promise.actions
        ≡ deploy_contract host.input
          ∷ function_call (codes "migrate") [] host.word_at_zero gas
          ∷ [])
    × (host.used_gas + gas_for_migrate_call + gas ≡ host.prepaid_gas)

-- An upgrade that does not panic was called by the owner, and makes one promise to the contract
-- itself: to deploy the code that was sent, and then to call `migrate` with all gas that the call
-- has not used and does not set aside.
pub upgrade-IsUpgrade :
    (env : Env) (host : Host) (state : Option Contract)
    → Holds (IsUpgrade env host state) (upgrade env host state)
unfolding upgrade assert_owner checked_sub
upgrade-IsUpgrade env host state = Holds-bind _ (expect state unwrap_none) _ λ c there.
    Holds-bind _ (ensure (text_eq env.predecessor_account_id c.owner_id) err_not_allowed) _
      λ _ allowed. Holds-bind _ (checked_sub host.prepaid_gas host.used_gas) _ λ unused e.
        Holds-bind _ (checked_sub unused gas_for_migrate_call) _ λ gas e'. (
          c,
          gas,
          ground (arith, there),
          ground (arith, allowed, text_eq_iff env.predecessor_account_id c.owner_id),
          refl,
          refl,
          ground (arith, e, e'),
        )
