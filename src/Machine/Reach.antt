-- ===== src/Machine/Reach.antt =====
-- Every call keeps an invariant of the contract (ref-farming/src/token_receiver.rs, owner.rs and the
-- other methods), so the invariant holds in every state that calls can reach.
use nft_farming.Prelude.{◌≡◌, refl, ℕ, Bool, not, leb, if◌then◌else◌}
use nft_farming.Checked.{
  Holds, Holds->>=, Holds-bind, Holds-if, Holds-eq-ok, ensure, wrong_seed_type,
  not_cross_contract_call, owner_is_not_signer, nft_not_on_seed, err34_below_min_seed_deposited,
}
use nft_farming.Text.{Text, text_eq}
use nft_farming.Utils.{SeedId, FarmId, AccountId}
use nft_farming.Contract.{Contract, Env}
use nft_farming.Claims.{get_seed}
use nft_farming.Stakes.{internal_seed_deposit, internal_nft_deposit, is_nft}
use nft_farming.Storage.{assert_storage_usage}
use nft_farming.Receiver.{
  receive_reward, receive_seed, ft_on_transfer, nft_on_transfer, is_empty_text,
}
use nft_farming.Rewards.{callback_post_withdraw_reward}
use nft_farming.Calls
use nft_farming.Calls.{assert_owner}
use nft_farming.Owner
use nft_farming.Machine.{Call, execute, IsReachable, deployed, called}
use nft_farming.Machine.Invariant.{IsKeptByCalls, IsInvariant, state_keeps}
use nft_farming.Machine.Keeps.{
  create_simple_farm_keeps, claim_reward_by_farm_keeps, claim_reward_by_seed_keeps,
  claim_reward_by_farm_and_withdraw_keeps, claim_reward_by_seed_and_withdraw_keeps,
  withdraw_reward_keeps, withdraw_nft_keeps, withdraw_seed_keeps,
}

module _ (P : Contract → Type 0) (i : IsKeptByCalls P) where
  receive_seed_keeps :
      (env : Env) (sender : AccountId) (amount : ℕ) (c : Contract)
      → P c
      → Holds P (receive_seed env sender amount c)
  unfolding receive_seed
  receive_seed_keeps env sender amount c h =
      let seed_id = env.predecessor_account_id in
      Holds-bind _ (get_seed seed_id c) _ λ seed _.
        Holds-bind _ (ensure (not (is_nft seed.seed_type)) wrong_seed_type) _ λ _ _.
          Holds-bind _ (ensure (leb seed.min_deposit amount) err34_below_min_seed_deposited) _
            λ _ _.
              Holds->>= P _ (internal_seed_deposit env seed_id sender amount c) _
                (i.kept.stake env seed_id sender amount c h)
                λ c' h'. Holds-bind _ (assert_storage_usage env sender c') _ λ _ _. h'

  ft_on_transfer_keeps :
      (env : Env) (sender_id : AccountId) (amount : ℕ) (msg : Text) (c : Contract)
      → P c
      → Holds (λ (out : Contract × ℕ). P out.0) (ft_on_transfer env sender_id amount msg c)
  unfolding ft_on_transfer
  ft_on_transfer_keeps env sender_id amount msg c h =
      Holds->>= P _
        (if is_empty_text msg
          then receive_seed env sender_id amount c
          else receive_reward env amount msg c)
        _
        (Holds-if P (is_empty_text msg) _ _ (λ _. receive_seed_keeps env sender_id amount c h)
          (λ _. i.reward env amount msg c h))
        λ c' h'. h'

  nft_on_transfer_keeps :
      (env : Env) (sender_id previous_owner_id : AccountId) (token_id msg : Text) (c : Contract)
      → P c
      → Holds
          (λ (out : Contract × Bool). P out.0)
          (nft_on_transfer env sender_id previous_owner_id token_id msg c)
  unfolding nft_on_transfer
  nft_on_transfer_keeps env sender_id previous_owner_id token_id msg c h =
      let nft_contract_id = env.predecessor_account_id in
      let signer_id = env.signer_account_id in
      Holds-bind _ (ensure (not (text_eq nft_contract_id signer_id)) not_cross_contract_call) _
        λ _ _.
          Holds-bind _ (ensure (text_eq previous_owner_id signer_id) owner_is_not_signer) _ λ _ _.
            Holds->>= _ _
              (internal_nft_deposit env msg previous_owner_id nft_contract_id token_id c) _
              (i.kept.stake_nft env msg previous_owner_id nft_contract_id token_id c h)
              λ (out : Contract × Bool) h'. Holds-bind _ (ensure out.1 nft_not_on_seed) _ λ _ _. h'

  set_owner_keeps :
      (env : Env) (owner_id : AccountId) (c : Contract)
      → P c
      → Holds P (Owner.set_owner env owner_id c)
  unfolding Owner.set_owner
  set_owner_keeps env owner_id c h = Holds-bind _ (assert_owner env c) _ λ _ _. i.owner c owner_id h

  force_clean_farm_keeps :
      (env : Env) (farm_id : FarmId) (c : Contract)
      → P c
      → Holds (λ (out : Contract × Bool). P out.0) (Owner.force_clean_farm env farm_id c)
  unfolding Owner.force_clean_farm
  force_clean_farm_keeps env farm_id c h =
      Holds-bind _ (assert_owner env c) _ λ _ _. i.close_farm env farm_id c h

  modify_seed_min_deposit_keeps :
      (env : Env) (seed_id : SeedId) (min_deposit : ℕ) (c : Contract)
      → P c
      → Holds P (Owner.modify_seed_min_deposit env seed_id min_deposit c)
  unfolding Owner.modify_seed_min_deposit
  modify_seed_min_deposit_keeps env seed_id min_deposit c h =
      Holds-bind _ (assert_owner env c) _ λ _ _. Holds-bind _ (get_seed seed_id c) _ λ _ _. h

  -- Each call keeps the invariant, if the callback of a reward's transfer does.
  pub execute_keeps :
      (env : Env) (call : Call) (c : Contract)
      → ((token_id sender_id : AccountId) (amount : ℕ)
          → call ≡ Call.callback_post_withdraw_reward token_id sender_id amount
          → Holds P (callback_post_withdraw_reward env token_id sender_id amount c))
      → P c
      → Holds P (execute env call c)
  unfolding execute Calls.private_withdraw_reward
  execute_keeps env (Call.create_simple_farm terms min_deposit table metadata) c back h =
      state_keeps P _ (create_simple_farm_keeps P i env terms min_deposit table metadata c h)
  execute_keeps env (Call.remove_user_rps_by_farm farm_id) c back h =
      state_keeps P _ (i.kept.forget_rps env farm_id c h)
  execute_keeps env (Call.claim_reward_by_farm farm_id) c back h =
      claim_reward_by_farm_keeps P i env farm_id c h
  execute_keeps env (Call.claim_reward_by_seed seed_id) c back h =
      claim_reward_by_seed_keeps P i env seed_id c h
  execute_keeps env (Call.claim_reward_by_farm_and_withdraw farm_id) c back h =
      claim_reward_by_farm_and_withdraw_keeps P i env farm_id c h
  execute_keeps env (Call.claim_reward_by_seed_and_withdraw seed_id) c back h =
      claim_reward_by_seed_and_withdraw_keeps P i env seed_id c h
  execute_keeps env (Call.withdraw_reward token_id amount) c back h =
      withdraw_reward_keeps P i env token_id amount c h
  execute_keeps env (Call.private_withdraw_reward token_id sender_id amount) c back h =
      i.kept.pay token_id sender_id amount c h
  execute_keeps env (Call.callback_post_withdraw_reward token_id sender_id amount) c back h =
      back token_id sender_id amount refl
  execute_keeps env (Call.force_upgrade_seed seed_id) c back h = i.kept.upgrade env seed_id c h
  execute_keeps env (Call.withdraw_nft seed_id contract_id token_id) c back h =
      withdraw_nft_keeps P i env seed_id contract_id token_id c h
  execute_keeps env (Call.withdraw_seed seed_id amount) c back h =
      withdraw_seed_keeps P i env seed_id amount c h
  execute_keeps env (Call.callback_post_withdraw_nft seed_id sender_id contract_id token_id) c back
        h =
      i.kept.give_back_nft env seed_id sender_id contract_id token_id c h
  execute_keeps env (Call.callback_post_withdraw_ft_seed seed_id sender_id amount) c back h =
      i.kept.give_back_seed env seed_id sender_id amount c h
  execute_keeps env (Call.ft_on_transfer sender_id amount msg) c back h =
      state_keeps P _ (ft_on_transfer_keeps env sender_id amount msg c h)
  execute_keeps env (Call.nft_on_transfer sender_id previous_owner_id token_id msg) c back h =
      state_keeps P _ (nft_on_transfer_keeps env sender_id previous_owner_id token_id msg c h)
  execute_keeps env (Call.set_owner owner_id) c back h = set_owner_keeps env owner_id c h
  execute_keeps env (Call.force_clean_farm farm_id) c back h =
      state_keeps P _ (force_clean_farm_keeps env farm_id c h)
  execute_keeps env (Call.modify_seed_min_deposit seed_id min_deposit) c back h =
      modify_seed_min_deposit_keeps env seed_id min_deposit c h
  execute_keeps env (Call.storage_deposit account only) c back h =
      state_keeps P _ (i.deposit env account only c h)
  execute_keeps env (Call.storage_withdraw wanted) c back h =
      state_keeps P _ (i.withdraw env wanted c h)
  execute_keeps env (Call.storage_unregister force) c back h =
      state_keeps P _ (i.unregister env force c h)

module _ (P : Contract → Type 0) (i : IsInvariant P) where
  pub reachable : {c : Contract} → IsReachable c → P c
  reachable (deployed owner_id e) = Holds-eq-ok P (i.init owner_id) e
  reachable (called {c = c} r env call e) =
      let h = i.ready c (reachable r) in
      Holds-eq-ok P
        (execute_keeps P i.calls env call _
          (λ token_id sender_id amount _. i.give_back_reward env token_id sender_id amount _ h) h)
        e
