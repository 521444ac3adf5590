-- ===== src/Machine/Keeps.antt =====
-- The methods of ref-farming/src/lib.rs and their callbacks keep an invariant of the contract.
use nft_farming.Prelude.{ℕ, Option, none, [], ltb, leb}
use nft_farming.Checked.{
  Holds, Holds->>=, Holds-bind, unwrap_none, checked_sub, checked_mul, u128_mod,
  err11_insufficient_storage, expect, ensure,
}
use nft_farming.Text.{Text}
use nft_farming.Map.{lookup, unwrap_or}
use nft_farming.Utils.{SeedId, FarmId, AccountId, NftBalance, min_seed_deposit}
use nft_farming.Farm.{FarmTerms}
use nft_farming.FarmSeed.{SeedType, ft, nft, FarmSeedMetadata}
use nft_farming.Contract.{Contract, Env}
use nft_farming.Claims.{
  get_farmer, internal_claim_user_reward_by_seed_id, internal_claim_user_reward_by_farm_id,
}
use nft_farming.Farms.{internal_add_farm}
use nft_farming.Storage.{assert_storage_usage, assert_one_yocto}
use nft_farming.Stakes.{internal_seed_withdraw, internal_nft_withdraw}
use nft_farming.Calls
use nft_farming.Calls.{assert_owner}
use nft_farming.Machine.Invariant.{IsKeptByCalls, if_keeps}
use nft_farming.FarmInfo.{get_farm}

module _ (P : Contract → Type 0) (i : IsKeptByCalls P) where
  transfer_seed_keeps :
      (t : SeedType) (seed_id : SeedId) (seed_contract_id sender_id : AccountId) (amount : ℕ)
      (c : Contract)
      → P c
      → Holds P (Calls.transfer_seed t seed_id seed_contract_id sender_id amount c)
  unfolding Calls.transfer_seed
  transfer_seed_keeps ft seed_id seed_contract_id sender_id amount c h = i.kept.ask _ _ tt h
  transfer_seed_keeps nft seed_id seed_contract_id sender_id amount c h = tt

  pub create_simple_farm_keeps :
      (env : Env) (terms : FarmTerms) (min_deposit : Option ℕ) (table : Option NftBalance)
      (metadata : Option FarmSeedMetadata) (c : Contract)
      → P c
      → Holds
          (λ (out : Contract × FarmId). P out.0)
          (Calls.create_simple_farm env terms min_deposit table metadata c)
  unfolding Calls.create_simple_farm
  create_simple_farm_keeps env terms min_deposit table metadata c h =
      Holds-bind _ (assert_owner env c) _ λ _ _.
        Holds->>= _ _
          (internal_add_farm terms (unwrap_or min_deposit min_seed_deposit) table metadata c) _
          (i.open_farm terms (unwrap_or min_deposit min_seed_deposit) table metadata c h)
          λ out h'.
            Holds-bind _ (checked_sub (env.storage_usage out.0) (env.storage_usage c)) _ λ needed _.
              Holds-bind _ (checked_mul u128_mod needed env.storage_byte_cost) _ λ cost _.
                Holds-bind _ (ensure (leb cost env.attached_deposit) err11_insufficient_storage) _
                  λ _ _.
                    Holds-bind _ (checked_sub env.attached_deposit cost) _
                      λ refund _. if_keeps P (ltb 0 refund) _ _ (i.kept.ask _ _ tt h') h'

  pub claim_reward_by_farm_keeps :
      (env : Env) (farm_id : FarmId) (c : Contract)
      → P c
      → Holds P (Calls.claim_reward_by_farm env farm_id c)
  unfolding Calls.claim_reward_by_farm
  claim_reward_by_farm_keeps env farm_id c h =
      Holds->>= P _ (internal_claim_user_reward_by_farm_id env env.predecessor_account_id farm_id c)
        _ (i.claim_by_farm env env.predecessor_account_id farm_id c h)
        λ c' h'. Holds-bind _ (assert_storage_usage env env.predecessor_account_id c') _ λ _ _. h'

  pub claim_reward_by_seed_keeps :
      (env : Env) (seed_id : SeedId) (c : Contract)
      → P c
      → Holds P (Calls.claim_reward_by_seed env seed_id c)
  unfolding Calls.claim_reward_by_seed
  claim_reward_by_seed_keeps env seed_id c h =
      Holds->>= P _ (internal_claim_user_reward_by_seed_id env env.predecessor_account_id seed_id c)
        _ (i.kept.claim env env.predecessor_account_id seed_id c h)
        λ c' h'. Holds-bind _ (assert_storage_usage env env.predecessor_account_id c') _ λ _ _. h'

  pub claim_reward_by_farm_and_withdraw_keeps :
      (env : Env) (farm_id : FarmId) (c : Contract)
      → P c
      → Holds P (Calls.claim_reward_by_farm_and_withdraw env farm_id c)
  unfolding Calls.claim_reward_by_farm_and_withdraw
  claim_reward_by_farm_and_withdraw_keeps env farm_id c h =
      Holds-bind _ (assert_one_yocto env) _ λ _ _.
        Holds->>= P _ (Calls.claim_reward_by_farm env farm_id c) _
          (claim_reward_by_farm_keeps env farm_id c h)
          λ c' h'.
            Holds-bind _ (get_farm env farm_id c') _ λ found _.
              Holds-bind _ (expect found unwrap_none) _ λ info _. i.kept.pay _ _ none c' h'

  pub claim_reward_by_seed_and_withdraw_keeps :
      (env : Env) (seed_id : SeedId) (c : Contract)
      → P c
      → Holds P (Calls.claim_reward_by_seed_and_withdraw env seed_id c)
  unfolding Calls.claim_reward_by_seed_and_withdraw
  claim_reward_by_seed_and_withdraw_keeps env seed_id c h =
      Holds-bind _ (assert_one_yocto env) _ λ _ _.
        Holds->>= P _ (Calls.claim_reward_by_seed env seed_id c) _
          (claim_reward_by_seed_keeps env seed_id c h)
          λ c' h'. Holds-bind _ (get_farmer env.predecessor_account_id c') _ λ farmer _.
            Holds-bind _ (expect (lookup seed_id c'.seeds) unwrap_none) _
              λ seed _. i.kept.pay_all _ farmer seed.farms [] c' h'

  pub withdraw_reward_keeps :
      (env : Env) (token_id : AccountId) (amount : Option ℕ) (c : Contract)
      → P c
      → Holds P (Calls.withdraw_reward env token_id amount c)
  unfolding Calls.withdraw_reward
  withdraw_reward_keeps env token_id amount c h =
      Holds-bind _ (assert_one_yocto env) _ λ _ _. i.kept.pay _ _ amount c h

  pub withdraw_nft_keeps :
      (env : Env) (seed_id : SeedId) (contract_id token_id : Text) (c : Contract)
      → P c
      → Holds P (Calls.withdraw_nft env seed_id contract_id token_id c)
  unfolding Calls.withdraw_nft
  withdraw_nft_keeps env seed_id contract_id token_id c h =
      Holds-bind _ (assert_one_yocto env) _ λ _ _.
        Holds->>= _ P
          (internal_nft_withdraw env seed_id env.predecessor_account_id contract_id token_id c) _
          (i.kept.unstake_nft env seed_id env.predecessor_account_id contract_id token_id c h)
          λ out h'. i.kept.ask _ _ tt h'

  pub withdraw_seed_keeps :
      (env : Env) (seed_id : SeedId) (amount : ℕ) (c : Contract)
      → P c
      → Holds P (Calls.withdraw_seed env seed_id amount c)
  unfolding Calls.withdraw_seed
  withdraw_seed_keeps env seed_id amount c h = Holds-bind _ (assert_one_yocto env) _ λ _ _.
      Holds->>= _ P (internal_seed_withdraw env seed_id env.predecessor_account_id amount c) _
        (i.kept.unstake env seed_id env.predecessor_account_id amount c h)
        λ out h'. transfer_seed_keeps out.1 seed_id _ env.predecessor_account_id amount out.0 h'
