-- ===== src/Stakes/Upkeep.antt =====
-- Opening and closing farms, adding rewards, and storage deposits leave the stake of a seed alone
-- (ref-farming/src/internals.rs, token_receiver.rs, storage_impl.rs).
use nft_farming.Prelude.{ℕ, ◌≡◌, Bool, true, Option, arith}
use nft_farming.Checked.{Holds, Holds-bind}
use nft_farming.Text.{text_eq_iff}
use nft_farming.Map.{lookup, lookup-insert, IsMap}
use nft_farming.Utils.{parse_farm_id, SeedId, FarmId, AccountId, NftBalance}
use nft_farming.Farm.{FarmTerms}
use nft_farming.FarmSeed.{FarmSeed, FarmSeedMetadata, new_farm_seed}
use nft_farming.Farmer.{Farmer, new_farmer, seed_balance}
use nft_farming.Contract.{Contract, Env}
use nft_farming.Claims.{get_farmer, get_farmer_wrapped, get_seed_wrapped}
use nft_farming.Farms.{seed_for_farm, internal_add_farm, retire, internal_remove_farm_by_farm_id}
use nft_farming.Receiver.{receive_reward}
use nft_farming.Stakes.Sum.{IsStaked, staked-insert, staked-remove}
use nft_farming.Storage.{
  StorageBalance, is_empty, internal_register_account, with_balance, register_new, storage_deposit,
  storage_withdraw, storage_unregister,
}

module _ (s : SeedId) where
  pub internal_add_farm-IsStaked :
      (terms : FarmTerms) (min_deposit : ℕ) (table : Option NftBalance)
      (metadata : Option FarmSeedMetadata) (c : Contract)
      → IsStaked s c
      → Holds
          (λ (out : Contract × FarmId). IsStaked s out.0)
          (internal_add_farm terms min_deposit table metadata c)
  unfolding internal_add_farm seed_for_farm get_seed_wrapped new_farm_seed
  internal_add_farm-IsStaked terms min_deposit table metadata c h =
      grind (arith, lookup-insert, text_eq_iff terms.seed_id s)

  retire-IsStaked :
      (now : ℕ) (farm_id : FarmId) (seed : FarmSeed) (c : Contract)
      → Holds
          (λ (c' : Contract). (c'.seeds ≡ c.seeds) × (c'.farmers ≡ c.farmers))
          (retire now farm_id seed c)
  unfolding retire
  retire-IsStaked now farm_id seed c = ground arith

  pub internal_remove_farm-IsStaked :
      (env : Env) (farm_id : FarmId) (c : Contract)
      → IsStaked s c
      → Holds
          (λ (out : Contract × Bool). IsStaked s out.0)
          (internal_remove_farm_by_farm_id env farm_id c)
  unfolding internal_remove_farm_by_farm_id get_seed_wrapped
  internal_remove_farm-IsStaked env farm_id c h =
      Holds-bind _ (parse_farm_id farm_id) _
        λ parsed _. grind (arith, retire-IsStaked, lookup-insert, text_eq_iff parsed.0 s)

  pub receive_reward-IsStaked :
      (env : Env) (amount : ℕ) (farm_id : FarmId) (c : Contract)
      → IsStaked s c
      → Holds (IsStaked s) (receive_reward env amount farm_id c)
  unfolding receive_reward
  receive_reward-IsStaked env amount farm_id c h = ground arith

  internal_register_account-IsStaked :
      (account : AccountId) (amount : ℕ) (c : Contract)
      → IsStaked s c
      → Holds (IsStaked s) (internal_register_account account amount c)
  unfolding internal_register_account get_farmer_wrapped new_farmer lookup
  internal_register_account-IsStaked account amount c h = grind (arith, staked-insert)

  with_balance-IsStaked :
      (env : Env) (account : AccountId) (c : Contract)
      → IsStaked s c
      → Holds (λ (out : Contract × StorageBalance). IsStaked s out.0) (with_balance env account c)
  unfolding with_balance
  with_balance-IsStaked env account c h = ground arith

  register_new-IsStaked :
      (env : Env) (account : AccountId) (only : Bool) (c : Contract)
      → IsStaked s c
      → Holds (IsStaked s) (register_new env account only c)
  unfolding register_new
  register_new-IsStaked env account only c h = grind (arith, internal_register_account-IsStaked)

  pub storage_deposit-IsStaked :
      (env : Env) (account : Option AccountId) (only : Option Bool) (c : Contract)
      → IsStaked s c
      → Holds
          (λ (out : Contract × StorageBalance). IsStaked s out.0)
          (storage_deposit env account only c)
  unfolding storage_deposit
  storage_deposit-IsStaked env account only c h =
      grind
        (arith, register_new-IsStaked, internal_register_account-IsStaked, with_balance-IsStaked)

  pub storage_withdraw-IsStaked :
      (env : Env) (wanted : Option ℕ) (c : Contract)
      → IsStaked s c
      → Holds
          (λ (out : Contract × StorageBalance). IsStaked s out.0)
          (storage_withdraw env wanted c)
  unfolding storage_withdraw get_farmer
  storage_withdraw-IsStaked env wanted c h = grind (arith, with_balance-IsStaked, staked-insert)

  empty_balance : (farmer : Farmer) → is_empty farmer.seeds ≡ true → seed_balance s farmer ≡ 0
  unfolding lookup
  empty_balance farmer h = ground arith

  -- A farmer that leaves holds no seed.
  pub storage_unregister-IsStaked :
      (env : Env) (force : Option Bool) (c : Contract)
      → IsMap c.farmers
      → IsStaked s c
      → Holds (λ (out : Contract × Bool). IsStaked s out.0) (storage_unregister env force c)
  unfolding storage_unregister get_farmer_wrapped lookup
  storage_unregister-IsStaked env force c k h = grind (arith, staked-remove, empty_balance)
