-- ===== src/Funds/Keeps.antt =====
-- Every call but the callback of a reward's transfer leaves the contract funded
-- (ref-farming/src/internals.rs, token_receiver.rs, storage_impl.rs).
use nft_farming.Prelude.{ℕ, ◌≡◌, Bool, Option, arith}
use nft_farming.Checked.{Holds, checked_add}
use nft_farming.Map.{lookup, lookup-insert}
use nft_farming.Text.{text_eq_iff}
use nft_farming.Utils.{FarmId, AccountId, NftBalance}
use nft_farming.Farm.{FarmTerms, new_farm}
use nft_farming.FarmSeed.{FarmSeed, FarmSeedMetadata}
use nft_farming.Farmer.{new_farmer}
use nft_farming.Contract.{Contract, Env}
use nft_farming.Claims.{get_farmer, get_farmer_wrapped}
use nft_farming.Farms.{seed_for_farm, internal_add_farm, retire, internal_remove_farm_by_farm_id}
use nft_farming.Receiver.{receive_reward}
use nft_farming.Storage.{
  StorageBalance, internal_register_account, with_balance, register_new, storage_deposit,
  storage_withdraw, storage_unregister,
}
use nft_farming.Machine.Invariant.{IsKeptByCalls}
use nft_farming.Machine.Stable.{IsStable-IsKept}
use nft_farming.Funds.{holding, committed, IsFunded}
use nft_farming.Funds.Totals.{
  earned-insert, earned-remove, held_by_farms-insert, held_by_farms-remove, committed-append,
}
use nft_farming.Funds.Farms.{add_reward-HasAdded, move_to_clear-SameUnpaid}
use nft_farming.Funds.Stable.{stable, claim_by_farm}

module _ (t : AccountId) (gone : ℕ) where
  new_farm-holding : (id : FarmId) (terms : FarmTerms) → holding t (new_farm id terms) ≡ 0
  unfolding new_farm
  new_farm-holding id terms = ground arith

  open_farm :
      (terms : FarmTerms) (min_deposit : ℕ) (table : Option NftBalance)
      (metadata : Option FarmSeedMetadata) (c : Contract)
      → IsFunded t gone c
      → Holds
          (λ (out : Contract × FarmId). IsFunded t gone out.0)
          (internal_add_farm terms min_deposit table metadata c)
  unfolding internal_add_farm seed_for_farm
  open_farm terms min_deposit table metadata c h =
      grind (arith, held_by_farms-insert t, new_farm-holding)

  retire-IsFunded :
      (now : ℕ) (farm_id : FarmId) (seed : FarmSeed) (c : Contract)
      → IsFunded t gone c
      → Holds (IsFunded t gone) (retire now farm_id seed c)
  unfolding retire
  retire-IsFunded now farm_id seed c h =
      grind (arith, move_to_clear-SameUnpaid, held_by_farms-insert t, held_by_farms-remove t)

  close_farm :
      (env : Env) (farm_id : FarmId) (c : Contract)
      → IsFunded t gone c
      → Holds
          (λ (out : Contract × Bool). IsFunded t gone out.0)
          (internal_remove_farm_by_farm_id env farm_id c)
  unfolding internal_remove_farm_by_farm_id
  close_farm env farm_id c h = grind (arith, retire-IsFunded)

  reward :
      (env : Env) (amount : ℕ) (farm_id : FarmId) (c : Contract)
      → IsFunded t gone c
      → Holds (IsFunded t gone) (receive_reward env amount farm_id c)
  unfolding receive_reward checked_add
  reward env amount farm_id c h = grind (
    arith,
    add_reward-HasAdded,
    held_by_farms-insert t,
    lookup-insert,
    text_eq_iff env.predecessor_account_id t,
    text_eq_iff,
  )

  register-IsFunded :
      (account : AccountId) (amount : ℕ) (c : Contract)
      → IsFunded t gone c
      → Holds (IsFunded t gone) (internal_register_account account amount c)
  unfolding internal_register_account get_farmer_wrapped new_farmer checked_add lookup
  register-IsFunded account amount c h = grind (arith, earned-insert t)

  with_balance-IsFunded :
      (env : Env) (account : AccountId) (c : Contract)
      → IsFunded t gone c
      → Holds
          (λ (out : Contract × StorageBalance). IsFunded t gone out.0)
          (with_balance env account c)
  unfolding with_balance
  with_balance-IsFunded env account c h = ground arith

  register_new-IsFunded :
      (env : Env) (account : AccountId) (only : Bool) (c : Contract)
      → IsFunded t gone c
      → Holds (IsFunded t gone) (register_new env account only c)
  unfolding register_new committed
  register_new-IsFunded env account only c h = grind (arith, register-IsFunded, committed-append t)

  deposit :
      (env : Env) (account : Option AccountId) (only : Option Bool) (c : Contract)
      → IsFunded t gone c
      → Holds
          (λ (out : Contract × StorageBalance). IsFunded t gone out.0)
          (storage_deposit env account only c)
  unfolding storage_deposit
  deposit env account only c h =
      grind (arith, register_new-IsFunded, register-IsFunded, with_balance-IsFunded)

  withdraw :
      (env : Env) (wanted : Option ℕ) (c : Contract)
      → IsFunded t gone c
      → Holds
          (λ (out : Contract × StorageBalance). IsFunded t gone out.0)
          (storage_withdraw env wanted c)
  unfolding storage_withdraw get_farmer committed
  withdraw env wanted c h =
      grind (arith, with_balance-IsFunded, earned-insert t, committed-append t)

  unregister :
      (env : Env) (force : Option Bool) (c : Contract)
      → IsFunded t gone c
      → Holds (λ (out : Contract × Bool). IsFunded t gone out.0) (storage_unregister env force c)
  unfolding storage_unregister committed
  unregister env force c h = grind (arith, earned-remove t, committed-append t)

  pub calls_keep : IsKeptByCalls (IsFunded t gone)
  calls_keep = record {
    kept = IsStable-IsKept (IsFunded t gone) (stable t gone);
    owner = λ c owner_id h. h;
    claim_by_farm = claim_by_farm t gone;
    open_farm = open_farm;
    close_farm = close_farm;
    reward = reward;
    deposit = deposit;
    withdraw = withdraw;
    unregister = unregister;
  }
