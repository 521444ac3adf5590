-- ===== src/Machine/Ruled.antt =====
-- What only the owner can change (ref-farming/src/owner.rs, lib.rs): the owner, the farms that there are,
-- the outdated farms and the tables of NFT values.
use nft_farming.Prelude.{◌≡◌, ◌≢◌, refl, Bool, true, false, List, [], ◌∷◌, arith}
use nft_farming.Checked.{Result, ok, err, Holds}
use nft_farming.Text.{text_eq, text_eq_iff}
use nft_farming.Map.{Map, lookup, is_some}
use nft_farming.Utils.{FarmId, AccountId, NftBalance}
use nft_farming.Farm.{Farm}
use nft_farming.Contract.{Contract, Env}
use nft_farming.Calls
use nft_farming.Machine.{Call, execute}
use nft_farming.Machine.Invariant.{state_keeps}
use nft_farming.Machine.Guards.{needs_owner, needs_owner_lem}
use nft_farming.Machine.Steady
use nft_farming.Machine.Steady.{IsRuled}

module _ (o : AccountId) (d : Map Farm) (tables : Map NftBalance) (id : FarmId) (b : Bool) where
  -- What panics keeps everything.
  refused_keeps :
      (env : Env) (call : Call) (c : Contract)
      → needs_owner call ≡ true
      → env.predecessor_account_id ≢ o
      → IsRuled o d tables id b c
      → Holds (IsRuled o d tables id b) (execute env call c)
  refused_keeps env call c needs ne h =
      let other : text_eq env.predecessor_account_id c.owner_id ≡ false =
        ground (arith, h.0, ne, text_eq_iff env.predecessor_account_id c.owner_id) in
      rw (needs_owner_lem env call c needs other) tt

  pub execute-IsRuled :
      (env : Env) (call : Call) (c : Contract)
      → env.predecessor_account_id ≢ o
      → IsRuled o d tables id b c
      → Holds (IsRuled o d tables id b) (execute env call c)
  unfolding execute Calls.private_withdraw_reward Calls.claim_reward_by_farm
      Calls.claim_reward_by_seed Calls.claim_reward_by_farm_and_withdraw
      Calls.claim_reward_by_seed_and_withdraw Calls.withdraw_reward Calls.withdraw_nft
      Calls.withdraw_seed Calls.transfer_seed
  execute-IsRuled env (Call.create_simple_farm terms min_deposit table metadata) c ne h =
      refused_keeps env (Call.create_simple_farm terms min_deposit table metadata) c refl ne h
  execute-IsRuled env (Call.remove_user_rps_by_farm farm_id) c ne h =
      state_keeps (IsRuled o d tables id b) _
        ((Steady.kept o d tables id b).forget_rps env farm_id c h)
  execute-IsRuled env (Call.claim_reward_by_farm farm_id) c ne h =
      grind (arith, Steady.claim_by_farm o d tables id b env env.predecessor_account_id farm_id c h)
  execute-IsRuled env (Call.claim_reward_by_seed seed_id) c ne h =
      grind (arith, Steady.claim o d tables id b env env.predecessor_account_id seed_id c h)
  execute-IsRuled env (Call.claim_reward_by_farm_and_withdraw farm_id) c ne h = grind (
    arith,
    Steady.claim_by_farm o d tables id b env env.predecessor_account_id farm_id c h,
    (Steady.kept o d tables id b).pay,
  )
  execute-IsRuled env (Call.claim_reward_by_seed_and_withdraw seed_id) c ne h = grind (
    arith,
    Steady.claim o d tables id b env env.predecessor_account_id seed_id c h,
    (Steady.kept o d tables id b).pay_all,
  )
  execute-IsRuled env (Call.withdraw_reward token_id amount) c ne h =
      grind
        (arith, (Steady.kept o d tables id b).pay token_id env.predecessor_account_id amount c h)
  execute-IsRuled env (Call.private_withdraw_reward token_id sender_id amount) c ne h =
      (Steady.kept o d tables id b).pay token_id sender_id amount c h
  execute-IsRuled env (Call.callback_post_withdraw_reward token_id sender_id amount) c ne h =
      Steady.give_back o d tables id b env token_id sender_id amount c h
  execute-IsRuled env (Call.force_upgrade_seed seed_id) c ne h =
      (Steady.kept o d tables id b).upgrade env seed_id c h
  execute-IsRuled env (Call.withdraw_nft seed_id contract_id token_id) c ne h = grind (
    arith,
    (Steady.kept o d tables id b).unstake_nft env seed_id env.predecessor_account_id contract_id
        token_id c h,
  )
  execute-IsRuled env (Call.withdraw_seed seed_id amount) c ne h = grind (
    arith,
    (Steady.kept o d tables id b).unstake env seed_id env.predecessor_account_id amount c h,
  )
  execute-IsRuled env (Call.callback_post_withdraw_nft seed_id sender_id contract_id token_id) c ne
        h =
      (Steady.kept o d tables id b).give_back_nft env seed_id sender_id contract_id token_id c h
  execute-IsRuled env (Call.callback_post_withdraw_ft_seed seed_id sender_id amount) c ne h =
      (Steady.kept o d tables id b).give_back_seed env seed_id sender_id amount c h
  execute-IsRuled env (Call.ft_on_transfer sender_id amount msg) c ne h =
      state_keeps (IsRuled o d tables id b) _
        (Steady.receive_token o d tables id b env sender_id amount msg c h)
  execute-IsRuled env (Call.nft_on_transfer sender_id previous_owner_id token_id msg) c ne h =
      state_keeps (IsRuled o d tables id b) _
        (Steady.receive_nft o d tables id b env sender_id previous_owner_id token_id msg c h)
  execute-IsRuled env (Call.set_owner owner_id) c ne h =
      refused_keeps env (Call.set_owner owner_id) c refl ne h
  execute-IsRuled env (Call.force_clean_farm farm_id) c ne h =
      refused_keeps env (Call.force_clean_farm farm_id) c refl ne h
  execute-IsRuled env (Call.modify_seed_min_deposit seed_id min_deposit) c ne h =
      refused_keeps env (Call.modify_seed_min_deposit seed_id min_deposit) c refl ne h
  execute-IsRuled env (Call.storage_deposit account only) c ne h =
      state_keeps (IsRuled o d tables id b) _ (Steady.deposit o d tables id b env account only c h)
  execute-IsRuled env (Call.storage_withdraw wanted) c ne h =
      state_keeps (IsRuled o d tables id b) _ (Steady.withdraw o d tables id b env wanted c h)
  execute-IsRuled env (Call.storage_unregister force) c ne h =
      state_keeps (IsRuled o d tables id b) _ (Steady.unregister o d tables id b env force c h)

-- Calls one after another; one that panics leaves the state as it was.
unfoldable pub attempts : List (Env × Call) → Contract → Contract
attempts [] c = c
attempts ((env, call) ∷ calls) c = elim (execute env call (record c { receipts = [] })) [
  | ok c' ↦ attempts calls c'
  | err e ↦ attempts calls c
]

-- No call is made by the account.
abbrev pub NoneBy : AccountId → List (Env × Call) → Type 0
NoneBy account [] = Unit
NoneBy account ((env, call) ∷ calls) = (env.predecessor_account_id ≢ account) × NoneBy account calls

attempts_keep :
    (o : AccountId) (d : Map Farm) (tables : Map NftBalance) (id : FarmId) (b : Bool)
    (calls : List (Env × Call)) (c : Contract)
    → NoneBy o calls
    → IsRuled o d tables id b c
    → IsRuled o d tables id b (attempts calls c)
unfolding attempts
attempts_keep o d tables id b [] c none_by h = h
attempts_keep o d tables id b ((env, call) ∷ calls) c none_by h =
    let m = execute env call (record c { receipts = [] }) in
    after m c calls (attempts_keep o d tables id b calls) none_by.1
      (execute-IsRuled o d tables id b env call (record c { receipts = [] }) none_by.0 h) h
  where
    after :
        (m : Result Contract) (c : Contract) (calls : List (Env × Call))
        → ((c' : Contract)
            → NoneBy o calls
            → IsRuled o d tables id b c'
            → IsRuled o d tables id b (attempts calls c'))
        → NoneBy o calls
        → Holds (IsRuled o d tables id b) m
        → IsRuled o d tables id b c
        → IsRuled o d tables id b (elim m [ ok c' ↦ attempts calls c' | err e ↦ attempts calls c ])
    after (ok c') c calls rest others h' h = rest c' others h'
    after (err e) c calls rest others h' h = rest c others h

-- Whatever calls are made one after another, if none of them is made by the owner: they leave the
-- owner, the outdated farms and the tables of NFT values as they were, and no farm is added or
-- removed. A call that panics counts as one that changes nothing.
pub attempts-IsRuled :
    (id : FarmId) (calls : List (Env × Call)) (c : Contract)
    → NoneBy c.owner_id calls
    → IsRuled c.owner_id c.outdated_farms c.nft_balance_seeds id
        (is_some (lookup id c.farms))
        (attempts calls c)
attempts-IsRuled id calls c none_by =
    attempts_keep c.owner_id c.outdated_farms c.nft_balance_seeds id (is_some (lookup id c.farms))
      calls c none_by (refl, refl, refl, refl)
