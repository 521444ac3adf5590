-- ===== src/Machine/Stable.antt =====
-- A property that is stable under writes of farmers and seeds is kept (ref-farming/src/lib.rs: the
-- callbacks, `remove_user_rps_by_farm` and `force_upgrade_seed`).
use nft_farming.Prelude.{◌≡◌, ℕ, Bool, Option, none, some}
use nft_farming.Checked.{Holds, Holds->>=, Holds-bind, Holds-both, Holds-if, unwrap_none, expect}
use nft_farming.Text.{Text}
use nft_farming.Map.{lookup, insert}
use nft_farming.Map.Set
use nft_farming.Utils.{SeedId, FarmId, AccountId, ContractNftTokenId, parse_farm_id}
use nft_farming.FarmSeed.{FarmSeed, add_amount}
use nft_farming.Contract.{Contract, Env, rps_of, not_ready, successful, failed}
use nft_farming.Claims.{get_farmer, get_seed, internal_claim_user_reward_by_seed_id}
use nft_farming.Claims.Registered.{get_farmer-lookup}
use nft_farming.Claims.Growth.{claim_by_seed-Poorer, add_seed-rewards, remove_rps-rewards}
use nft_farming.Stakes.Stability.{IsStable, Replaces, found-Replaces, replaced, add_nft-same}
use nft_farming.Farmer.{Farmer, remove_rps, add_seed, add_nft}
use nft_farming.Rewards.{only_result}
use nft_farming.Stakes.Keeps.{
  withdraw_rewards_keeps, internal_seed_deposit_keeps, internal_seed_withdraw_keeps,
  internal_nft_deposit_keeps, internal_nft_withdraw_keeps,
}
use nft_farming.Calls
use nft_farming.Calls.{assert_owner}
use nft_farming.Machine.Invariant.{IsKept}

module _ (P : Contract → Type 0) (stable : IsStable P) where
  restake_nft_keeps :
      (env : Env) (seed_id : SeedId) (sender_id : AccountId) (token : ContractNftTokenId)
      (value : Option ℕ) (farmer : Farmer) (seed : FarmSeed) (c : Contract)
      → lookup sender_id c.farmers ≡ some farmer
      → P c
      → Holds P (Calls.restake_nft env seed_id sender_id token value farmer seed c)
  unfolding Calls.restake_nft
  restake_nft_keeps env seed_id sender_id token none farmer seed c known h = h
  restake_nft_keeps env seed_id sender_id token (some n) farmer seed c known h =
      Holds->>= (λ c₁. Replaces farmer sender_id c₁ × P c₁) P
        (internal_claim_user_reward_by_seed_id env sender_id seed_id c) _
        (Holds-both (λ c₁. Replaces farmer sender_id c₁) P _
          (claim_by_seed-Poorer env sender_id seed_id c farmer known)
          (stable.claim env sender_id seed_id c h))
        λ c₁ h₁.
          Holds->>= _ _ (add_seed seed_id n (add_nft seed_id token farmer)) _
            (add_seed-rewards seed_id n (add_nft seed_id token farmer))
            λ farmer' same. Holds-bind _ (add_amount n seed) _ λ seed' _.
              stable.write c₁ sender_id farmer' c₁.user_rps (insert seed_id seed' c₁.seeds)
                (replaced sender_id c₁ farmer farmer' h₁.0
                  (add_nft-same seed_id token farmer farmer' same))
                h₁.1

  remove_user_rps_by_farm_keeps :
      (env : Env) (farm_id : FarmId) (c : Contract)
      → P c
      → Holds (λ (out : Contract × Bool). P out.0) (Calls.remove_user_rps_by_farm env farm_id c)
  unfolding Calls.remove_user_rps_by_farm
  remove_user_rps_by_farm_keeps env farm_id c h =
      let sender_id = env.predecessor_account_id in
      Holds-bind _ (get_farmer sender_id c) _ λ farmer known.
        Holds-bind _ (parse_farm_id farm_id) _ λ parsed _.
          Holds-bind _ (get_seed parsed.0 c) _ λ seed _.
            Holds-if _ (Set.contains farm_id seed.farms) _ _ (λ _. h)
              λ _.
                Holds->>= _ _ (remove_rps farm_id farmer (rps_of sender_id c)) _
                  (remove_rps-rewards farm_id farmer (rps_of sender_id c))
                  λ out same.
                    stable.write c sender_id out.0 (insert sender_id out.1 c.user_rps) c.seeds
                      (found-Replaces _ _ out.0 known same) h

  force_upgrade_seed_keeps :
      (env : Env) (seed_id : SeedId) (c : Contract)
      → P c
      → Holds P (Calls.force_upgrade_seed env seed_id c)
  unfolding Calls.force_upgrade_seed
  force_upgrade_seed_keeps env seed_id c h = Holds-bind _ (assert_owner env c) _ λ _ _.
      Holds-bind _ (get_seed seed_id c) _ λ seed _. stable.upgrade c (insert seed_id seed c.seeds) h

  callback_post_withdraw_nft_keeps :
      (env : Env) (seed_id : SeedId) (sender_id : AccountId) (contract_id token_id : Text)
      (c : Contract)
      → P c
      → Holds P (Calls.callback_post_withdraw_nft env seed_id sender_id contract_id token_id c)
  unfolding Calls.callback_post_withdraw_nft
  callback_post_withdraw_nft_keeps env seed_id sender_id contract_id token_id c h =
      Holds-bind _ (only_result env) _ (elim [
        | not_ready ↦ λ _. tt
        | successful ↦ λ _. h
        | failed ↦ λ _. Holds-bind _ (get_farmer sender_id c) _ λ farmer known.
            Holds-bind _ (get_seed seed_id c) _ λ seed _.
              Holds-bind _ (expect (lookup seed_id c.nft_balance_seeds) unwrap_none) _ λ table _.
                restake_nft_keeps env seed_id sender_id _ _ farmer seed c
                  (get_farmer-lookup sender_id c known) h
      ])

  callback_post_withdraw_ft_seed_keeps :
      (env : Env) (seed_id : SeedId) (sender_id : AccountId) (amount : ℕ) (c : Contract)
      → P c
      → Holds P (Calls.callback_post_withdraw_ft_seed env seed_id sender_id amount c)
  unfolding Calls.callback_post_withdraw_ft_seed
  callback_post_withdraw_ft_seed_keeps env seed_id sender_id amount c h =
      Holds-bind _ (only_result env) _ (elim [
        | not_ready ↦ λ _. tt
        | successful ↦ λ _. h
        | failed ↦ λ _.
            Holds->>= P P (internal_claim_user_reward_by_seed_id env sender_id seed_id c) _
              (stable.claim env sender_id seed_id c h)
              λ c₁ h₁. Holds-bind _ (get_seed seed_id c₁) _ λ seed _.
                Holds-bind _ (add_amount amount seed) _ λ seed' _.
                  Holds-bind _ (get_farmer sender_id c₁) _ λ farmer known.
                    Holds->>= _ _ (add_seed seed_id amount farmer) _
                      (add_seed-rewards seed_id amount farmer)
                      λ farmer' same.
                        stable.write c₁ sender_id farmer' c₁.user_rps
                          (insert seed_id seed' c₁.seeds) (found-Replaces _ _ farmer' known same) h₁
      ])

  pub IsStable-IsKept : IsKept P
  IsStable-IsKept = record {
    ask = stable.ask;
    claim = stable.claim;
    pay = stable.pay;
    pay_all = withdraw_rewards_keeps P stable;
    stake = internal_seed_deposit_keeps P stable;
    unstake = internal_seed_withdraw_keeps P stable;
    stake_nft = internal_nft_deposit_keeps P stable;
    unstake_nft = internal_nft_withdraw_keeps P stable;
    give_back_seed = callback_post_withdraw_ft_seed_keeps;
    give_back_nft = callback_post_withdraw_nft_keeps;
    forget_rps = remove_user_rps_by_farm_keeps;
    upgrade = force_upgrade_seed_keeps;
  }
