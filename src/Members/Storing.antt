-- ===== src/Members/Storing.antt =====
-- Registering adds one account and unregistering removes one (ref-farming/src/storage_impl.rs).
use nft_farming.Prelude.{ℕ, Bool, Option, arith}
use nft_farming.Checked.{Holds, checked_add, checked_sub}
use nft_farming.Map.{insert-IsMap, remove-IsMap, length-insert, length-remove}
use nft_farming.Utils.{AccountId}
use nft_farming.Contract.{Contract, Env}
use nft_farming.Claims.{get_farmer, get_farmer_wrapped}
use nft_farming.Storage.{
  StorageBalance, internal_register_account, with_balance, register_new, storage_deposit,
  storage_withdraw, storage_unregister,
}
use nft_farming.Members.{IsCounted}

internal_register_account-IsCounted :
    (account : AccountId) (amount : ℕ) (c : Contract)
    → IsCounted c
    → Holds IsCounted (internal_register_account account amount c)
unfolding internal_register_account get_farmer_wrapped checked_add
internal_register_account-IsCounted account amount c h = grind (arith, insert-IsMap, length-insert)

with_balance-IsCounted :
    (env : Env) (account : AccountId) (c : Contract)
    → IsCounted c
    → Holds (λ (out : Contract × StorageBalance). IsCounted out.0) (with_balance env account c)
unfolding with_balance
with_balance-IsCounted env account c h = ground arith

register_new-IsCounted :
    (env : Env) (account : AccountId) (only : Bool) (c : Contract)
    → IsCounted c
    → Holds IsCounted (register_new env account only c)
unfolding register_new
register_new-IsCounted env account only c h = grind (arith, internal_register_account-IsCounted)

pub storage_deposit-IsCounted :
    (env : Env) (account : Option AccountId) (only : Option Bool) (c : Contract)
    → IsCounted c
    → Holds
        (λ (out : Contract × StorageBalance). IsCounted out.0)
        (storage_deposit env account only c)
unfolding storage_deposit
storage_deposit-IsCounted env account only c h =
    grind
      (arith, register_new-IsCounted, internal_register_account-IsCounted, with_balance-IsCounted)

pub storage_withdraw-IsCounted :
    (env : Env) (wanted : Option ℕ) (c : Contract)
    → IsCounted c
    → Holds (λ (out : Contract × StorageBalance). IsCounted out.0) (storage_withdraw env wanted c)
unfolding storage_withdraw get_farmer
storage_withdraw-IsCounted env wanted c h =
    grind (arith, with_balance-IsCounted, insert-IsMap, length-insert)

pub storage_unregister-IsCounted :
    (env : Env) (force : Option Bool) (c : Contract)
    → IsCounted c
    → Holds (λ (out : Contract × Bool). IsCounted out.0) (storage_unregister env force c)
unfolding storage_unregister get_farmer_wrapped checked_sub
storage_unregister-IsCounted env force c h = grind (arith, remove-IsMap, length-remove)
