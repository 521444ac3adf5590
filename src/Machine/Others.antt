-- ===== src/Machine/Others.antt =====
-- A call changes the farmer of no account but the one that it is made for (ref-farming/src/lib.rs,
-- token_receiver.rs, storage_impl.rs, owner.rs).
use nft_farming.Prelude.{◌≡◌, ◌≢◌, refl, Option, List, [], ◌∷◌, arith}
use nft_farming.Checked.{Holds, Holds->>=, Holds-map}
use nft_farming.Map.{lookup, unwrap_or}
use nft_farming.Utils.{SeedId, FarmId, AccountId}
use nft_farming.Farmer.{Farmer}
use nft_farming.Contract.{Contract, Env}
use nft_farming.Calls
use nft_farming.Owner
use nft_farming.Machine.{Call, execute, run}
use nft_farming.Machine.Invariant.{state_keeps}
use nft_farming.Stakes.Others.{
  Stands, internal_execute_withdraw_reward-Stands, withdraw_rewards-Stands, claim_by_seed-Stands,
  claim_by_farm-Stands, internal_seed_withdraw-Stands, internal_nft_withdraw-Stands,
}
use nft_farming.Machine.Untouched.{
  callback_post_withdraw_reward-Stands, callback_post_withdraw_ft_seed-Stands,
  callback_post_withdraw_nft-Stands, remove_user_rps_by_farm-Stands, storage_deposit-Stands,
  storage_withdraw-Stands, storage_unregister-Stands, create_simple_farm-Stands,
  internal_remove_farm-Stands, ft_on_transfer-Stands, nft_on_transfer-Stands,
}

-- The account that a call is made for: the caller, or the account that it names.
abbrev pub made_for : Env → Call → AccountId
made_for env (Call.private_withdraw_reward token_id sender_id amount) = sender_id
made_for env (Call.callback_post_withdraw_reward token_id sender_id amount) = sender_id
made_for env (Call.callback_post_withdraw_nft seed_id sender_id contract_id token_id) = sender_id
made_for env (Call.callback_post_withdraw_ft_seed seed_id sender_id amount) = sender_id
made_for env (Call.ft_on_transfer sender_id amount msg) = sender_id
made_for env (Call.nft_on_transfer sender_id previous_owner_id token_id msg) = previous_owner_id
made_for env (Call.storage_deposit account only) = unwrap_or account env.predecessor_account_id
made_for env _ = env.predecessor_account_id

module _ (a : AccountId) (o : Option Farmer) where
  claim_reward_by_farm-Stands :
      (env : Env) (farm_id : FarmId) (c : Contract)
      → env.predecessor_account_id ≢ a
      → Stands a o c
      → Holds (Stands a o) (Calls.claim_reward_by_farm env farm_id c)
  unfolding Calls.claim_reward_by_farm
  claim_reward_by_farm-Stands env farm_id c ne h =
      grind (arith, claim_by_farm-Stands a o env env.predecessor_account_id farm_id c ne h)

  claim_reward_by_seed-Stands :
      (env : Env) (seed_id : SeedId) (c : Contract)
      → env.predecessor_account_id ≢ a
      → Stands a o c
      → Holds (Stands a o) (Calls.claim_reward_by_seed env seed_id c)
  unfolding Calls.claim_reward_by_seed
  claim_reward_by_seed-Stands env seed_id c ne h =
      grind (arith, claim_by_seed-Stands a o env env.predecessor_account_id seed_id c ne h)

  execute-Stands :
      (env : Env) (call : Call) (c : Contract)
      → made_for env call ≢ a
      → Stands a o c
      → Holds (Stands a o) (execute env call c)
  unfolding execute Calls.private_withdraw_reward Calls.claim_reward_by_farm_and_withdraw
      Calls.claim_reward_by_seed_and_withdraw Calls.withdraw_reward Calls.force_upgrade_seed
      Calls.withdraw_nft Calls.withdraw_seed Calls.transfer_seed Owner.set_owner
      Owner.force_clean_farm Owner.modify_seed_min_deposit
  execute-Stands env (Call.create_simple_farm terms min_deposit table metadata) c ne h =
      state_keeps (Stands a o) _
        (create_simple_farm-Stands a o env terms min_deposit table metadata c h)
  execute-Stands env (Call.remove_user_rps_by_farm farm_id) c ne h =
      state_keeps (Stands a o) _ (remove_user_rps_by_farm-Stands a o env farm_id c ne h)
  execute-Stands env (Call.claim_reward_by_farm farm_id) c ne h =
      claim_reward_by_farm-Stands env farm_id c ne h
  execute-Stands env (Call.claim_reward_by_seed seed_id) c ne h =
      claim_reward_by_seed-Stands env seed_id c ne h
  execute-Stands env (Call.claim_reward_by_farm_and_withdraw farm_id) c ne h = grind (
    arith,
    claim_reward_by_farm-Stands env farm_id c ne h,
    internal_execute_withdraw_reward-Stands a o,
  )
  execute-Stands env (Call.claim_reward_by_seed_and_withdraw seed_id) c ne h =
      grind (arith, claim_reward_by_seed-Stands env seed_id c ne h, withdraw_rewards-Stands a o)
  execute-Stands env (Call.withdraw_reward token_id amount) c ne h = grind (
    arith,
    internal_execute_withdraw_reward-Stands a o token_id env.predecessor_account_id amount c ne h,
  )
  execute-Stands env (Call.private_withdraw_reward token_id sender_id amount) c ne h =
      internal_execute_withdraw_reward-Stands a o token_id sender_id amount c ne h
  execute-Stands env (Call.callback_post_withdraw_reward token_id sender_id amount) c ne h =
      callback_post_withdraw_reward-Stands a o env token_id sender_id amount c ne h
  execute-Stands env (Call.force_upgrade_seed seed_id) c ne h = grind arith
  execute-Stands env (Call.withdraw_nft seed_id contract_id token_id) c ne h = grind (
    arith,
    internal_nft_withdraw-Stands a o env seed_id env.predecessor_account_id contract_id token_id c
        ne h,
  )
  execute-Stands env (Call.withdraw_seed seed_id amount) c ne h = grind (
    arith,
    internal_seed_withdraw-Stands a o env seed_id env.predecessor_account_id amount c ne h,
  )
  execute-Stands env (Call.callback_post_withdraw_nft seed_id sender_id contract_id token_id) c ne
        h =
      callback_post_withdraw_nft-Stands a o env seed_id sender_id contract_id token_id c ne h
  execute-Stands env (Call.callback_post_withdraw_ft_seed seed_id sender_id amount) c ne h =
      callback_post_withdraw_ft_seed-Stands a o env seed_id sender_id amount c ne h
  execute-Stands env (Call.ft_on_transfer sender_id amount msg) c ne h =
      state_keeps (Stands a o) _ (ft_on_transfer-Stands a o env sender_id amount msg c ne h)
  execute-Stands env (Call.nft_on_transfer sender_id previous_owner_id token_id msg) c ne h =
      state_keeps (Stands a o) _
        (nft_on_transfer-Stands a o env sender_id previous_owner_id token_id msg c ne h)
  execute-Stands env (Call.set_owner owner_id) c ne h = grind arith
  execute-Stands env (Call.force_clean_farm farm_id) c ne h =
      grind (arith, internal_remove_farm-Stands a o env farm_id c h)
  execute-Stands env (Call.modify_seed_min_deposit seed_id min_deposit) c ne h = grind arith
  execute-Stands env (Call.storage_deposit account only) c ne h =
      state_keeps (Stands a o) _ (storage_deposit-Stands a o env account only c ne h)
  execute-Stands env (Call.storage_withdraw wanted) c ne h =
      state_keeps (Stands a o) _ (storage_withdraw-Stands a o env wanted c ne h)
  execute-Stands env (Call.storage_unregister force) c ne h =
      state_keeps (Stands a o) _ (storage_unregister-Stands a o env force c ne h)

-- A call changes no other account's farmer.
execute-others :
    (a : AccountId) (env : Env) (call : Call) (c : Contract)
    → made_for env call ≢ a
    → Holds (λ c'. lookup a c'.farmers ≡ lookup a c.farmers) (execute env call c)
execute-others a env call c ne = execute-Stands a (lookup a c.farmers) env call c ne refl

-- None of the calls is made for the account.
abbrev pub AllForOthers : AccountId → List (Env × Call) → Type 0
AllForOthers a [] = Unit
AllForOthers a ((env, call) ∷ calls) = (made_for env call ≢ a) × AllForOthers a calls

-- A sequence of calls that does not panic leaves the farmer of an account as it was, with its
-- stakes, its NFTs, its rewards and its storage deposit, if none of the calls is made for that
-- account: a callback, the private withdrawal of a reward, a deposit of a token or an NFT, and a
-- storage deposit that names an account are made for the account that they name, and every other
-- call for the account that makes it.
pub run-others :
    (a : AccountId) (calls : List (Env × Call)) (c : Contract)
    → AllForOthers a calls
    → Holds (λ c'. lookup a c'.farmers ≡ lookup a c.farmers) (run calls c)
unfolding run
run-others a [] c h = refl
run-others a ((env, call) ∷ calls) c h =
    Holds->>= _ _ (execute env call (record c { receipts = [] })) _
      (execute-others a env call (record c { receipts = [] }) h.0)
      λ c₁ same.
        Holds-map _ (λ c'. lookup a c'.farmers ≡ lookup a c.farmers) (run calls c₁)
          (run-others a calls c₁ h.1) λ c' same'. cc (same, same')
