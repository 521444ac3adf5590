-- ===== src/Machine/Untouched.antt =====
-- Storage management, token receivers and callbacks leave the farmers of other accounts as they were
-- (ref-farming/src/storage_impl.rs, token_receiver.rs, lib.rs).
use nft_farming.Prelude.{ℕ, ◌≢◌, Bool, Option, arith}
use nft_farming.Checked.{Holds}
use nft_farming.Text.{Text, text_eq_iff}
use nft_farming.Map.{unwrap_or, lookup-insert_ne, lookup-remove}
use nft_farming.Utils.{SeedId, FarmId, AccountId, NftBalance}
use nft_farming.Farm.{FarmTerms}
use nft_farming.Farmer.{Farmer}
use nft_farming.FarmSeed.{FarmSeedMetadata}
use nft_farming.Contract.{Contract, Env}
use nft_farming.Claims.{get_farmer_wrapped}
use nft_farming.Rewards.{callback_post_withdraw_reward}
use nft_farming.Storage.{
  StorageBalance, storage_deposit, storage_withdraw, storage_unregister, register_new,
  internal_register_account, with_balance,
}
use nft_farming.Farms.{internal_add_farm, internal_remove_farm_by_farm_id, seed_for_farm, retire}
use nft_farming.Receiver.{receive_reward, receive_seed, ft_on_transfer, nft_on_transfer}
use nft_farming.Calls
use nft_farming.Stakes.Others.{
  Stands, claim_by_seed-Stands, internal_seed_deposit-Stands, internal_nft_deposit-Stands,
}

module _ (a : AccountId) (o : Option Farmer) where
  pub callback_post_withdraw_reward-Stands :
      (env : Env) (token_id sender_id : AccountId) (amount : ℕ) (c : Contract)
      → sender_id ≢ a
      → Stands a o c
      → Holds (Stands a o) (callback_post_withdraw_reward env token_id sender_id amount c)
  unfolding callback_post_withdraw_reward
  callback_post_withdraw_reward-Stands env token_id sender_id amount c ne h =
      grind (arith, lookup-insert_ne {V = Farmer} sender_id a)

  pub callback_post_withdraw_ft_seed-Stands :
      (env : Env) (seed_id : SeedId) (sender_id : AccountId) (amount : ℕ) (c : Contract)
      → sender_id ≢ a
      → Stands a o c
      → Holds (Stands a o) (Calls.callback_post_withdraw_ft_seed env seed_id sender_id amount c)
  unfolding Calls.callback_post_withdraw_ft_seed
  callback_post_withdraw_ft_seed-Stands env seed_id sender_id amount c ne h = grind (
    arith,
    claim_by_seed-Stands a o env sender_id seed_id c ne h,
    lookup-insert_ne {V = Farmer} sender_id a,
  )

  pub callback_post_withdraw_nft-Stands :
      (env : Env) (seed_id : SeedId) (sender_id : AccountId) (contract_id token_id : Text)
      (c : Contract)
      → sender_id ≢ a
      → Stands a o c
      → Holds
          (Stands a o)
          (Calls.callback_post_withdraw_nft env seed_id sender_id contract_id token_id c)
  unfolding Calls.callback_post_withdraw_nft Calls.restake_nft
  callback_post_withdraw_nft-Stands env seed_id sender_id contract_id token_id c ne h = grind (
    arith,
    claim_by_seed-Stands a o env sender_id seed_id c ne h,
    lookup-insert_ne {V = Farmer} sender_id a,
  )

  pub remove_user_rps_by_farm-Stands :
      (env : Env) (farm_id : FarmId) (c : Contract)
      → env.predecessor_account_id ≢ a
      → Stands a o c
      → Holds
          (λ (out : Contract × Bool). Stands a o out.0)
          (Calls.remove_user_rps_by_farm env farm_id c)
  unfolding Calls.remove_user_rps_by_farm
  remove_user_rps_by_farm-Stands env farm_id c ne h =
      grind (arith, lookup-insert_ne {V = Farmer} env.predecessor_account_id a)

  pub internal_register_account-Stands :
      (account : AccountId) (amount : ℕ) (c : Contract)
      → account ≢ a
      → Stands a o c
      → Holds (Stands a o) (internal_register_account account amount c)
  unfolding internal_register_account
  internal_register_account-Stands account amount c ne h =
      grind (arith, lookup-insert_ne {V = Farmer} account a)

  pub register_new-Stands :
      (env : Env) (account : AccountId) (only : Bool) (c : Contract)
      → account ≢ a
      → Stands a o c
      → Holds (Stands a o) (register_new env account only c)
  unfolding register_new
  register_new-Stands env account only c ne h =
      grind (arith, internal_register_account-Stands account)

  pub storage_deposit-Stands :
      (env : Env) (account : Option AccountId) (only : Option Bool) (c : Contract)
      → unwrap_or account env.predecessor_account_id ≢ a
      → Stands a o c
      → Holds
          (λ (out : Contract × StorageBalance). Stands a o out.0)
          (storage_deposit env account only c)
  unfolding storage_deposit with_balance
  storage_deposit-Stands env account only c ne h = grind (
    arith,
    internal_register_account-Stands (unwrap_or account env.predecessor_account_id),
    register_new-Stands env (unwrap_or account env.predecessor_account_id),
  )

  pub storage_withdraw-Stands :
      (env : Env) (wanted : Option ℕ) (c : Contract)
      → env.predecessor_account_id ≢ a
      → Stands a o c
      → Holds
          (λ (out : Contract × StorageBalance). Stands a o out.0)
          (storage_withdraw env wanted c)
  unfolding storage_withdraw with_balance
  storage_withdraw-Stands env wanted c ne h =
      grind (arith, lookup-insert_ne {V = Farmer} env.predecessor_account_id a)

  pub storage_unregister-Stands :
      (env : Env) (force : Option Bool) (c : Contract)
      → env.predecessor_account_id ≢ a
      → Stands a o c
      → Holds (λ (out : Contract × Bool). Stands a o out.0) (storage_unregister env force c)
  unfolding storage_unregister get_farmer_wrapped
  storage_unregister-Stands env force c ne h = grind (
    arith,
    lookup-remove env.predecessor_account_id a c.farmers,
    text_eq_iff env.predecessor_account_id a,
  )

  pub create_simple_farm-Stands :
      (env : Env) (terms : FarmTerms) (min_deposit : Option ℕ) (table : Option NftBalance)
      (metadata : Option FarmSeedMetadata) (c : Contract)
      → Stands a o c
      → Holds
          (λ (out : Contract × FarmId). Stands a o out.0)
          (Calls.create_simple_farm env terms min_deposit table metadata c)
  unfolding Calls.create_simple_farm internal_add_farm seed_for_farm
  create_simple_farm-Stands env terms min_deposit table metadata c h = grind arith

  pub internal_remove_farm-Stands :
      (env : Env) (farm_id : FarmId) (c : Contract)
      → Stands a o c
      → Holds
          (λ (out : Contract × Bool). Stands a o out.0)
          (internal_remove_farm_by_farm_id env farm_id c)
  unfolding internal_remove_farm_by_farm_id retire
  internal_remove_farm-Stands env farm_id c h = grind arith

  pub receive_reward-Stands :
      (env : Env) (amount : ℕ) (farm_id : FarmId) (c : Contract)
      → Stands a o c
      → Holds (Stands a o) (receive_reward env amount farm_id c)
  unfolding receive_reward
  receive_reward-Stands env amount farm_id c h = grind arith

  pub ft_on_transfer-Stands :
      (env : Env) (sender_id : AccountId) (amount : ℕ) (msg : Text) (c : Contract)
      → sender_id ≢ a
      → Stands a o c
      → Holds (λ (out : Contract × ℕ). Stands a o out.0) (ft_on_transfer env sender_id amount msg c)
  unfolding ft_on_transfer receive_seed
  ft_on_transfer-Stands env sender_id amount msg c ne h = grind (
    arith,
    internal_seed_deposit-Stands a o env env.predecessor_account_id sender_id amount c ne h,
    receive_reward-Stands env amount msg c h,
  )

  pub nft_on_transfer-Stands :
      (env : Env) (sender_id previous_owner_id : AccountId) (token_id msg : Text) (c : Contract)
      → previous_owner_id ≢ a
      → Stands a o c
      → Holds
          (λ (out : Contract × Bool). Stands a o out.0)
          (nft_on_transfer env sender_id previous_owner_id token_id msg c)
  unfolding nft_on_transfer
  nft_on_transfer-Stands env sender_id previous_owner_id token_id msg c ne h = grind (
    arith,
    internal_nft_deposit-Stands a o env msg previous_owner_id env.predecessor_account_id token_id c
        ne h,
  )
