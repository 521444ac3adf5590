-- ===== src/Machine/Listed.antt =====
-- In every reachable state the farms that a seed lists are there, so the loops over them find each farm
-- (ref-farming/src/internals.rs, lib.rs).
use nft_farming.Prelude.{ℕ, refl, Bool, false, arith, some, inl, ◌≡◌, true}
use nft_farming.Checked.{
  Result, Holds, Holds-map, Holds->>=, Holds-bind, expect, unwrap_none, err31_seed_not_exist,
}
use nft_farming.Text.{text_eq_iff, Text}
use nft_farming.Map.{lookup, lookup-insert, is_some, insert}
use nft_farming.Utils.{
  SeedId, FarmId, AccountId, ContractNftTokenId, contract_nft_token_id, get_nft_balance_equivalent,
}
use nft_farming.FarmSeed.{SeedType, FarmSeed, add_amount}
use nft_farming.Contract.{Contract, Env, new_contract, not_ready, successful, failed}
use nft_farming.Claims.{get_seed, internal_claim_user_reward_by_seed_id, get_farmer}
use nft_farming.Calls
use nft_farming.Calls.{assert_owner}
use nft_farming.Machine.{IsReachable}
use nft_farming.Machine.Invariant.{IsInvariant}
use nft_farming.Machine.Reach.{reachable}
use nft_farming.Map.Set
use nft_farming.Map.Set.{contains-insert, contains-remove}
use nft_farming.Farmer.{add_seed}
use nft_farming.Rewards.{callback_post_withdraw_reward, only_result}
use nft_farming.Farms.Listed.{
  SameFarms, claim_by_seed-SameFarms, claim_by_farm-SameFarms, execute_withdraw-SameFarms,
  withdraw_rewards-SameFarms, stored-SameFarms, add_amount-farms,
}
use nft_farming.Farms.Staking.{
  internal_seed_deposit-SameFarms, internal_seed_withdraw-SameFarms, internal_nft_deposit-SameFarms,
  internal_nft_withdraw-SameFarms, restake_nft-SameFarms,
}
use nft_farming.Farms.Registry
use nft_farming.Farms.Upkeep
use nft_farming.Farms.Registry.{IsListed, same_listed}

module _ (s : SeedId) (id : FarmId) where
  same_keeps :
      {A : Type 0} (state : A → Contract) (c : Contract) (m : Result A)
      → IsListed s id c
      → Holds (λ a. SameFarms s id c (state a)) m
      → Holds (λ a. IsListed s id (state a)) m
  same_keeps state c m h same = Holds-map _ _ m same λ a p. same_listed s id c (state a) h p

  give_back_seed :
      (env : Env) (seed_id : SeedId) (sender_id : AccountId) (amount : ℕ) (c : Contract)
      → IsListed s id c
      → Holds (IsListed s id) (Calls.callback_post_withdraw_ft_seed env seed_id sender_id amount c)
  unfolding Calls.callback_post_withdraw_ft_seed get_seed
  give_back_seed env seed_id sender_id amount c h = Holds-bind _ (only_result env) _ (elim [
    | not_ready ↦ λ _. tt
    | successful ↦ λ _. h
    | failed ↦ λ _.
        Holds->>= _ _ (internal_claim_user_reward_by_seed_id env sender_id seed_id c) _
          (claim_by_seed-SameFarms s id env sender_id seed_id c)
          λ c₁ same.
            Holds-bind _ (expect (lookup seed_id c₁.seeds) err31_seed_not_exist) _ λ seed known.
              Holds->>= _ _ (add_amount amount seed) _ (add_amount-farms amount seed) λ seed' list.
                Holds-bind _ (get_farmer sender_id c₁) _ λ farmer _.
                  Holds-bind _ (add_seed seed_id amount farmer) _ λ farmer' _.
                    same_listed s id c
                      (record c₁ {
                        seeds = insert seed_id seed' c₁.seeds;
                        farmers = insert sender_id farmer' c₁.farmers;
                      })
                      h
                      (stored-SameFarms s id seed_id c c₁ (insert sender_id farmer' c₁.farmers)
                        c₁.user_rps seed' same (ground (arith, known, list)))
  ])

  give_back_nft :
      (env : Env) (seed_id : SeedId) (sender_id : AccountId) (contract_id token_id : Text)
      (c : Contract)
      → IsListed s id c
      → Holds
          (IsListed s id)
          (Calls.callback_post_withdraw_nft env seed_id sender_id contract_id token_id c)
  unfolding Calls.callback_post_withdraw_nft get_seed
  give_back_nft env seed_id sender_id contract_id token_id c h =
      let token = contract_nft_token_id contract_id token_id in
      Holds-bind _ (only_result env) _ (elim [
        | not_ready ↦ λ _. tt
        | successful ↦ λ _. h
        | failed ↦ λ _. Holds-bind _ (get_farmer sender_id c) _ λ farmer _.
            Holds-bind _ (expect (lookup seed_id c.seeds) err31_seed_not_exist) _ λ seed known.
              Holds-bind _ (expect (lookup seed_id c.nft_balance_seeds) unwrap_none) _ λ table _.
                same_keeps (λ c'. c') c
                  (Calls.restake_nft env seed_id sender_id token
                    (get_nft_balance_equivalent table token) farmer seed c)
                  h
                  (restake_nft-SameFarms s id env seed_id sender_id token _ farmer seed c
                    (ground arith))
      ])

  give_back_reward :
      (env : Env) (token_id sender_id : AccountId) (amount : ℕ) (c : Contract)
      → IsListed s id c
      → Holds (IsListed s id) (callback_post_withdraw_reward env token_id sender_id amount c)
  unfolding callback_post_withdraw_reward
  give_back_reward env token_id sender_id amount c h = ground arith

  forget_rps :
      (env : Env) (farm_id : FarmId) (c : Contract)
      → IsListed s id c
      → Holds
          (λ (out : Contract × Bool). IsListed s id out.0)
          (Calls.remove_user_rps_by_farm env farm_id c)
  unfolding Calls.remove_user_rps_by_farm
  forget_rps env farm_id c h = ground arith

  upgrade :
      (env : Env) (seed_id : SeedId) (c : Contract)
      → IsListed s id c
      → Holds (IsListed s id) (Calls.force_upgrade_seed env seed_id c)
  unfolding Calls.force_upgrade_seed get_seed
  upgrade env seed_id c h = grind (arith, lookup-insert, text_eq_iff seed_id s)

  init : (owner_id : AccountId) → Holds (IsListed s id) (new_contract false owner_id)
  unfolding new_contract lookup Set.contains
  init owner_id = inl refl

  invariant : IsInvariant (IsListed s id)
  invariant = record {
    calls = record {
      kept = record {
        ask = λ c r plain h. h;
        claim = λ env sender_id seed_id c h.
            same_keeps (λ c'. c') c _ h (claim_by_seed-SameFarms s id env sender_id seed_id c);
        pay = λ token_id sender_id amount c h.
            same_keeps (λ c'. c') c _ h
              (execute_withdraw-SameFarms s id token_id sender_id amount c);
        pay_all = λ sender_id farmer ids seen c h.
            same_keeps (λ c'. c') c _ h
              (withdraw_rewards-SameFarms s id sender_id farmer ids seen c);
        stake = λ env seed_id sender_id amount c h.
            same_keeps (λ c'. c') c _ h
              (internal_seed_deposit-SameFarms s id env seed_id sender_id amount c);
        unstake = λ env seed_id sender_id amount c h.
            same_keeps (λ (out : Contract × SeedType). out.0) c _ h
              (internal_seed_withdraw-SameFarms s id env seed_id sender_id amount c);
        stake_nft = λ env seed_id sender_id contract_id token_id c h.
            same_keeps (λ (out : Contract × Bool). out.0) c _ h
              (internal_nft_deposit-SameFarms s id env seed_id sender_id contract_id token_id c);
        unstake_nft = λ env seed_id sender_id contract_id token_id c h.
            same_keeps (λ (out : Contract × ContractNftTokenId). out.0) c _ h
              (internal_nft_withdraw-SameFarms s id env seed_id sender_id contract_id token_id c);
        give_back_seed = give_back_seed;
        give_back_nft = give_back_nft;
        forget_rps = forget_rps;
        upgrade = upgrade;
      };
      owner = λ c owner_id h. h;
      claim_by_farm = λ env sender_id farm_id c h.
          same_keeps (λ c'. c') c _ h (claim_by_farm-SameFarms s id env sender_id farm_id c);
      open_farm = Registry.open_farm s id;
      close_farm = Registry.close_farm s id;
      reward = Upkeep.reward s id;
      deposit = Upkeep.deposit s id;
      withdraw = Upkeep.withdraw s id;
      unregister = Upkeep.unregister s id;
    };
    init = init;
    ready = λ c h. h;
    give_back_reward = give_back_reward;
  }

  -- In a reachable state every farm that a seed lists is there, so a loop over the farms of a seed
  -- finds each of them.
  pub reachable-lookup :
      {c : Contract} {seed : FarmSeed}
      → IsReachable c
      → lookup s c.seeds ≡ some seed
      → Set.contains id seed.farms ≡ true
      → is_some (lookup id c.farms) ≡ true
  reachable-lookup r known lists = ground (arith, reachable (IsListed s id) invariant r)
