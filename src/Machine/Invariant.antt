-- ===== src/Machine/Invariant.antt =====
-- The interface of an invariant of the contract: what it has to show of each part of the code, and
-- that it then holds in every state that calls can reach.
use nft_farming.Prelude.{ℕ, Bool, true, false, Option, List, [], if◌then◌else◌}
use nft_farming.Checked.{Result, ok, err, Holds}
use nft_farming.Text.{Text}
use nft_farming.Utils.{SeedId, FarmId, AccountId, ContractNftTokenId, NftBalance}
use nft_farming.Farm.{FarmTerms}
use nft_farming.FarmSeed.{SeedType, FarmSeedMetadata}
use nft_farming.Contract.{Contract, Env, Receipt, request, new_contract}
use nft_farming.Stakes.Stability.{IsPlain}
use nft_farming.Claims.{
  internal_claim_user_reward_by_seed_id, internal_claim_user_reward_by_farm_id,
}
use nft_farming.Farms.{internal_add_farm, internal_remove_farm_by_farm_id}
use nft_farming.Farmer.{Farmer}
use nft_farming.Storage.{StorageBalance, storage_deposit, storage_withdraw, storage_unregister}
use nft_farming.Receiver.{receive_reward}
use nft_farming.Rewards.{
  internal_execute_withdraw_reward, callback_post_withdraw_reward, withdraw_rewards,
}
use nft_farming.Stakes.{
  internal_seed_deposit, internal_seed_withdraw, internal_nft_deposit, internal_nft_withdraw,
}
use nft_farming.Calls
use nft_farming.Calls.{assert_owner}
use nft_farming.Machine.{state_of}

-- What the operations of the other modules keep.
pub record IsKept (P : Contract → Type 0) : Type 0 where
  pub ask : (c : Contract) (r : Receipt) → IsPlain r → P c → P (request r c)
  pub claim :
      (env : Env) (sender_id : AccountId) (seed_id : SeedId) (c : Contract)
      → P c
      → Holds P (internal_claim_user_reward_by_seed_id env sender_id seed_id c)
  pub pay :
      (token_id sender_id : AccountId) (amount : Option ℕ) (c : Contract)
      → P c
      → Holds P (internal_execute_withdraw_reward token_id sender_id amount c)
  pub pay_all :
      (sender_id : AccountId) (farmer : Farmer) (ids : List FarmId) (seen : List AccountId)
      (c : Contract)
      → P c
      → Holds P (withdraw_rewards sender_id farmer ids seen c)
  pub stake :
      (env : Env) (seed_id : SeedId) (sender_id : AccountId) (amount : ℕ) (c : Contract)
      → P c
      → Holds P (internal_seed_deposit env seed_id sender_id amount c)
  pub unstake :
      (env : Env) (seed_id : SeedId) (sender_id : AccountId) (amount : ℕ) (c : Contract)
      → P c
      → Holds
          (λ (out : Contract × SeedType). P out.0)
          (internal_seed_withdraw env seed_id sender_id amount c)
  pub stake_nft :
      (env : Env) (seed_id : SeedId) (sender_id : AccountId) (contract_id token_id : Text)
      (c : Contract)
      → P c
      → Holds
          (λ (out : Contract × Bool). P out.0)
          (internal_nft_deposit env seed_id sender_id contract_id token_id c)
  pub unstake_nft :
      (env : Env) (seed_id : SeedId) (sender_id : AccountId) (contract_id token_id : Text)
      (c : Contract)
      → P c
      → Holds
          (λ (out : Contract × ContractNftTokenId). P out.0)
          (internal_nft_withdraw env seed_id sender_id contract_id token_id c)
  pub give_back_seed :
      (env : Env) (seed_id : SeedId) (sender_id : AccountId) (amount : ℕ) (c : Contract)
      → P c
      → Holds P (Calls.callback_post_withdraw_ft_seed env seed_id sender_id amount c)
  pub give_back_nft :
      (env : Env) (seed_id : SeedId) (sender_id : AccountId) (contract_id token_id : Text)
      (c : Contract)
      → P c
      → Holds P (Calls.callback_post_withdraw_nft env seed_id sender_id contract_id token_id c)
  pub forget_rps :
      (env : Env) (farm_id : FarmId) (c : Contract)
      → P c
      → Holds (λ (out : Contract × Bool). P out.0) (Calls.remove_user_rps_by_farm env farm_id c)
  pub upgrade :
      (env : Env) (seed_id : SeedId) (c : Contract)
      → P c
      → Holds P (Calls.force_upgrade_seed env seed_id c)

-- What all calls keep but the callback of a reward's transfer.
pub record IsKeptByCalls (P : Contract → Type 0) : Type 0 where
  pub kept : IsKept P
  pub owner : (c : Contract) (owner_id : AccountId) → P c → P (record c { owner_id = owner_id })
  pub claim_by_farm :
      (env : Env) (sender_id : AccountId) (farm_id : FarmId) (c : Contract)
      → P c
      → Holds P (internal_claim_user_reward_by_farm_id env sender_id farm_id c)
  pub open_farm :
      (terms : FarmTerms) (min_deposit : ℕ) (table : Option NftBalance)
      (metadata : Option FarmSeedMetadata) (c : Contract)
      → P c
      → Holds
          (λ (out : Contract × FarmId). P out.0)
          (internal_add_farm terms min_deposit table metadata c)
  pub close_farm :
      (env : Env) (farm_id : FarmId) (c : Contract)
      → P c
      → Holds (λ (out : Contract × Bool). P out.0) (internal_remove_farm_by_farm_id env farm_id c)
  pub reward :
      (env : Env) (amount : ℕ) (farm_id : FarmId) (c : Contract)
      → P c
      → Holds P (receive_reward env amount farm_id c)
  pub deposit :
      (env : Env) (account : Option AccountId) (only : Option Bool) (c : Contract)
      → P c
      → Holds (λ (out : Contract × StorageBalance). P out.0) (storage_deposit env account only c)
  pub withdraw :
      (env : Env) (wanted : Option ℕ) (c : Contract)
      → P c
      → Holds (λ (out : Contract × StorageBalance). P out.0) (storage_withdraw env wanted c)
  pub unregister :
      (env : Env) (force : Option Bool) (c : Contract)
      → P c
      → Holds (λ (out : Contract × Bool). P out.0) (storage_unregister env force c)

pub record IsInvariant (P : Contract → Type 0) : Type 0 where
  pub calls : IsKeptByCalls P
  pub init : (owner_id : AccountId) → Holds P (new_contract false owner_id)
  pub ready : (c : Contract) → P c → P (record c { receipts = [] })
  pub give_back_reward :
      (env : Env) (token_id sender_id : AccountId) (amount : ℕ) (c : Contract)
      → P c
      → Holds P (callback_post_withdraw_reward env token_id sender_id amount c)

pub if_keeps :
    (P : Contract → Type 0) (b : Bool) (c c' : Contract) → P c → P c' → P (if b then c else c')
if_keeps P true c c' h h' = h
if_keeps P false c c' h h' = h'

pub state_keeps :
    {A : Type 0} (P : Contract → Type 0) (m : Result (Contract × A))
    → Holds (λ (out : Contract × A). P out.0) m
    → Holds P (state_of m)
state_keeps P (ok out) h = h
state_keeps P (err e) h = tt
