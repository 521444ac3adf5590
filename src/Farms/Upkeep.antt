-- ===== src/Farms/Upkeep.antt =====
-- Rewards and storage deposits leave the seeds' lists of farms and the farms that are there alone
-- (ref-farming/src/token_receiver.rs, storage_impl.rs).
use nft_farming.Prelude.{ℕ, Bool, Option, arith, ◌≡◌}
use nft_farming.Checked.{Holds, Holds-map}
use nft_farming.Text.{text_eq_iff}
use nft_farming.Map.{lookup-insert}
use nft_farming.Utils.{SeedId, FarmId, AccountId}
use nft_farming.Contract.{Contract, Env}
use nft_farming.Receiver.{receive_reward}
use nft_farming.Storage.{
  StorageBalance, storage_deposit, storage_withdraw, storage_unregister, with_balance, register_new,
  internal_register_account,
}
use nft_farming.Farms.Registry.{IsListed}

module _ (s : SeedId) (id : FarmId) where
  pub reward :
      (env : Env) (amount : ℕ) (farm_id : FarmId) (c : Contract)
      → IsListed s id c
      → Holds (IsListed s id) (receive_reward env amount farm_id c)
  unfolding receive_reward
  reward env amount farm_id c h = grind (arith, lookup-insert, text_eq_iff farm_id id)

  -- Storage deposits touch neither seeds nor farms.
  abbrev SameBoth : Contract → Contract → Type 0
  SameBoth c c' = (c'.seeds ≡ c.seeds) × (c'.farms ≡ c.farms)

  internal_register_account-SameBoth :
      (account : AccountId) (amount : ℕ) (c : Contract)
      → Holds (SameBoth c) (internal_register_account account amount c)
  unfolding internal_register_account
  internal_register_account-SameBoth account amount c = ground arith

  with_balance-SameBoth :
      (env : Env) (account : AccountId) (c : Contract)
      → Holds (λ (out : Contract × StorageBalance). SameBoth c out.0) (with_balance env account c)
  unfolding with_balance
  with_balance-SameBoth env account c = ground arith

  register_new-SameBoth :
      (env : Env) (account : AccountId) (only : Bool) (c : Contract)
      → Holds (SameBoth c) (register_new env account only c)
  unfolding register_new
  register_new-SameBoth env account only c = grind (arith, internal_register_account-SameBoth)

  storage_deposit-SameBoth :
      (env : Env) (account : Option AccountId) (only : Option Bool) (c : Contract)
      → Holds
          (λ (out : Contract × StorageBalance). SameBoth c out.0)
          (storage_deposit env account only c)
  unfolding storage_deposit
  storage_deposit-SameBoth env account only c =
      grind
        (arith, register_new-SameBoth, internal_register_account-SameBoth, with_balance-SameBoth)

  storage_withdraw-SameBoth :
      (env : Env) (wanted : Option ℕ) (c : Contract)
      → Holds
          (λ (out : Contract × StorageBalance). SameBoth c out.0)
          (storage_withdraw env wanted c)
  unfolding storage_withdraw
  storage_withdraw-SameBoth env wanted c = grind (arith, with_balance-SameBoth)

  pub deposit :
      (env : Env) (account : Option AccountId) (only : Option Bool) (c : Contract)
      → IsListed s id c
      → Holds
          (λ (out : Contract × StorageBalance). IsListed s id out.0)
          (storage_deposit env account only c)
  deposit env account only c h =
      Holds-map _ _ (storage_deposit env account only c)
        (storage_deposit-SameBoth env account only c) λ out same. ground (arith, same)

  pub withdraw :
      (env : Env) (wanted : Option ℕ) (c : Contract)
      → IsListed s id c
      → Holds
          (λ (out : Contract × StorageBalance). IsListed s id out.0)
          (storage_withdraw env wanted c)
  withdraw env wanted c h =
      Holds-map _ _ (storage_withdraw env wanted c) (storage_withdraw-SameBoth env wanted c)
        λ out same. ground (arith, same)

  pub unregister :
      (env : Env) (force : Option Bool) (c : Contract)
      → IsListed s id c
      → Holds (λ (out : Contract × Bool). IsListed s id out.0) (storage_unregister env force c)
  unfolding storage_unregister
  unregister env force c h = ground arith
