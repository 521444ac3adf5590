-- ===== src/Farms/Staking.antt =====
-- Staking, unstaking and the callbacks leave the lists of farms alone (ref-farming/src/internals.rs,
-- lib.rs).
use nft_farming.Prelude.{ℕ, ◌≡◌, refl, Bool, Option, none, some, [], arith, if◌then◌else◌, ◌==◌}
use nft_farming.Checked.{
  ok, Holds, Holds->>=, Holds-bind, Holds-both, expect, unwrap_none, ensure, err31_seed_not_exist,
  wrong_seed_type,
}
use nft_farming.Text.{Text}
use nft_farming.Map.{Map, lookup, insert}
use nft_farming.Utils.{
  SeedId, FarmId, AccountId, ContractNftTokenId, contract_nft_token_id, get_nft_balance_equivalent,
}
use nft_farming.FarmSeed.{FarmSeed, SeedType, add_amount, sub_amount}
use nft_farming.Farmer.{Farmer, UserRps, add_seed, sub_seed, add_nft, sub_nft}
use nft_farming.Contract.{Contract, Env, rps_of}
use nft_farming.Claims.{get_farmer, get_seed, internal_claim_user_reward_by_seed_id}
use nft_farming.Rewards.{withdraw_rewards}
use nft_farming.Stakes.{
  internal_seed_deposit, internal_seed_withdraw, internal_nft_deposit, internal_nft_withdraw,
  stake_nft, stake_if_valued, is_nft, remove_all_rps, settle_withdrawal,
}
use nft_farming.Calls
use nft_farming.Calls.{assert_owner}
use nft_farming.Farms.Listed.{
  farms_of, add_amount-farms, sub_amount-farms, SameFarms, claim_by_seed-SameFarms,
  withdraw_rewards-SameFarms, stored-SameFarms, settled-SameFarms,
}

module _ (s : SeedId) (id : FarmId) where
  -- The end of a deposit or a withdrawal, for a seed with the same list.
  withdrawn-SameFarms :
      (seed_id : SeedId) (account : AccountId) (c c₁ : Contract) (farmer : Farmer)
      (rps : Map UserRps) (seed' : FarmSeed)
      → SameFarms s id c c₁
      → farms_of (lookup seed_id c₁.seeds) ≡ seed'.farms
      → Holds (SameFarms s id c) (
          withdraw_rewards account farmer seed'.farms [] (record c₁ {
            farmers = insert account farmer c₁.farmers;
            user_rps = rps;
            seeds = insert seed_id seed' c₁.seeds;
          }))
  withdrawn-SameFarms seed_id account c c₁ farmer rps seed' same list =
      let stored : Contract = record c₁ {
        farmers = insert account farmer c₁.farmers;
        user_rps = rps;
        seeds = insert seed_id seed' c₁.seeds;
      } in
      settled-SameFarms s id c stored _
        (stored-SameFarms s id seed_id c c₁ (insert account farmer c₁.farmers) rps seed' same list)
        (withdraw_rewards-SameFarms s id account farmer seed'.farms [] stored)

  pub internal_seed_deposit-SameFarms :
      (env : Env) (seed_id : SeedId) (sender_id : AccountId) (amount : ℕ) (c : Contract)
      → Holds (SameFarms s id c) (internal_seed_deposit env seed_id sender_id amount c)
  unfolding internal_seed_deposit get_seed
  internal_seed_deposit-SameFarms env seed_id sender_id amount c =
      Holds->>= _ _ (internal_claim_user_reward_by_seed_id env sender_id seed_id c) _
        (claim_by_seed-SameFarms s id env sender_id seed_id c)
        λ c₁ same.
          Holds-bind _ (expect (lookup seed_id c₁.seeds) err31_seed_not_exist) _ λ seed known.
            Holds-bind _ (get_farmer sender_id c₁) _ λ farmer _.
              Holds->>= _ _ (add_amount amount seed) _ (add_amount-farms amount seed) λ seed' list.
                Holds-bind _ (add_seed seed_id amount farmer) _ λ farmer' _.
                  withdrawn-SameFarms seed_id sender_id c c₁ farmer' c₁.user_rps seed' same
                    (ground (arith, known, list))

  settle_withdrawal-SameFarms :
      (seed_id : SeedId) (account : AccountId) (remain : ℕ) (farmer : Farmer) (seed' : FarmSeed)
      (c c₁ : Contract)
      → SameFarms s id c c₁
      → (farms_of (lookup seed_id c₁.seeds) ≡ seed'.farms)
      → Holds (SameFarms s id c) (settle_withdrawal seed_id account remain farmer seed' c₁)
  unfolding settle_withdrawal
  settle_withdrawal-SameFarms seed_id account remain farmer seed' c c₁ same list =
      Holds-bind _
        (if remain == 0
          then remove_all_rps seed'.farms farmer (rps_of account c₁)
          else ok (farmer, rps_of account c₁))
        _
        λ out _.
          withdrawn-SameFarms seed_id account c c₁ out.0 (insert account out.1 c₁.user_rps) seed'
            same list

  pub internal_seed_withdraw-SameFarms :
      (env : Env) (seed_id : SeedId) (sender_id : AccountId) (amount : ℕ) (c : Contract)
      → Holds
          (λ (out : Contract × SeedType). SameFarms s id c out.0)
          (internal_seed_withdraw env seed_id sender_id amount c)
  unfolding internal_seed_withdraw get_seed
  internal_seed_withdraw-SameFarms env seed_id sender_id amount c =
      Holds->>= _ _ (internal_claim_user_reward_by_seed_id env sender_id seed_id c) _
        (claim_by_seed-SameFarms s id env sender_id seed_id c)
        λ c₁ same.
          Holds-bind _ (expect (lookup seed_id c₁.seeds) err31_seed_not_exist) _ λ seed known.
            Holds-bind _ (get_farmer sender_id c₁) _ λ farmer _.
              Holds-bind _ (sub_seed seed_id amount farmer) _ λ sub _.
                Holds->>= _ _ (sub_amount amount seed) _ (sub_amount-farms amount seed) λ rest list.
                  Holds->>= _ _ (settle_withdrawal seed_id sender_id sub.1 sub.0 rest.0 c₁) _
                    (settle_withdrawal-SameFarms seed_id sender_id sub.1 sub.0 rest.0 c c₁ same
                      (ground (arith, known, list)))
                    λ c₂ h. h

  pub internal_nft_withdraw-SameFarms :
      (env : Env) (seed_id : SeedId) (sender_id : AccountId) (contract_id token_id : Text)
      (c : Contract)
      → Holds
          (λ (out : Contract × ContractNftTokenId). SameFarms s id c out.0)
          (internal_nft_withdraw env seed_id sender_id contract_id token_id c)
  unfolding internal_nft_withdraw get_seed
  internal_nft_withdraw-SameFarms env seed_id sender_id contract_id token_id c =
      let token = contract_nft_token_id contract_id token_id in
      Holds->>= _ _ (internal_claim_user_reward_by_seed_id env sender_id seed_id c) _
        (claim_by_seed-SameFarms s id env sender_id seed_id c)
        λ c₁ same.
          Holds-bind _ (expect (lookup seed_id c₁.seeds) err31_seed_not_exist) _ λ seed known.
            Holds-bind _ (get_farmer sender_id c₁) _ λ farmer _.
              Holds-bind _ (expect (sub_nft seed_id token farmer).1 unwrap_none) _ λ _ _.
                Holds-bind _ (expect (lookup seed_id c₁.nft_balance_seeds) unwrap_none) _ λ table _.
                  Holds-bind _ (expect (get_nft_balance_equivalent table token) unwrap_none) _
                    λ n _.
                      Holds-bind _ (sub_seed seed_id n (sub_nft seed_id token farmer).0) _ λ sub _.
                        Holds->>= _ _ (sub_amount n seed) _ (sub_amount-farms n seed) λ rest list.
                          Holds->>= _ _ (settle_withdrawal seed_id sender_id sub.1 sub.0 rest.0 c₁)
                            _
                            (settle_withdrawal-SameFarms seed_id sender_id sub.1 sub.0 rest.0 c c₁
                              same (ground (arith, known, list)))
                            λ c₂ h. h

  -- What the seed lists, read before a claim, is what it lists after it.
  claim_by_seed-both :
      (env : Env) (sender_id : AccountId) (seed_id : SeedId) (c : Contract)
      → Holds
          (λ c₁. SameFarms s id c c₁ × SameFarms seed_id id c c₁)
          (internal_claim_user_reward_by_seed_id env sender_id seed_id c)
  claim_by_seed-both env sender_id seed_id c =
      Holds-both _ _ _ (claim_by_seed-SameFarms s id env sender_id seed_id c)
        (claim_by_seed-SameFarms seed_id id env sender_id seed_id c)

  stake_nft-SameFarms :
      (env : Env) (seed_id : SeedId) (sender_id : AccountId) (token : ContractNftTokenId) (n : ℕ)
      (seed : FarmSeed) (c : Contract)
      → lookup seed_id c.seeds ≡ some seed
      → Holds (SameFarms s id c) (stake_nft env seed_id sender_id token n seed c)
  unfolding stake_nft
  stake_nft-SameFarms env seed_id sender_id token n seed c known =
      Holds->>= _ _ (internal_claim_user_reward_by_seed_id env sender_id seed_id c) _
        (claim_by_seed-both env sender_id seed_id c)
        λ c₁ same. Holds-bind _ (get_farmer sender_id c₁) _ λ farmer _.
          Holds-bind _ (add_seed seed_id n (add_nft seed_id token farmer)) _ λ farmer' _.
            Holds->>= _ _ (add_amount n seed) _ (add_amount-farms n seed) λ seed' list.
              withdrawn-SameFarms seed_id sender_id c c₁ farmer' c₁.user_rps seed' same.0
                (ground (arith, known, list, same.1))

  pub internal_nft_deposit-SameFarms :
      (env : Env) (seed_id : SeedId) (sender_id : AccountId) (contract_id token_id : Text)
      (c : Contract)
      → Holds
          (λ (out : Contract × Bool). SameFarms s id c out.0)
          (internal_nft_deposit env seed_id sender_id contract_id token_id c)
  unfolding internal_nft_deposit get_seed stake_if_valued
  internal_nft_deposit-SameFarms env seed_id sender_id contract_id token_id c =
      Holds-bind _ (expect (lookup seed_id c.seeds) err31_seed_not_exist) _ λ seed known.
        Holds-bind _ (ensure (is_nft seed.seed_type) wrong_seed_type) _ λ _ _.
          Holds-bind _ (expect (lookup seed_id c.nft_balance_seeds) unwrap_none) _
            λ table _. grind (arith, stake_nft-SameFarms)

  pub restake_nft-SameFarms :
      (env : Env) (seed_id : SeedId) (sender_id : AccountId) (token : ContractNftTokenId)
      (value : Option ℕ) (farmer : Farmer) (seed : FarmSeed) (c : Contract)
      → lookup seed_id c.seeds ≡ some seed
      → Holds (SameFarms s id c) (Calls.restake_nft env seed_id sender_id token value farmer seed c)
  unfolding Calls.restake_nft
  restake_nft-SameFarms env seed_id sender_id token none farmer seed c known = (refl, refl)
  restake_nft-SameFarms env seed_id sender_id token (some n) farmer seed c known =
      Holds->>= _ _ (internal_claim_user_reward_by_seed_id env sender_id seed_id c) _
        (claim_by_seed-both env sender_id seed_id c)
        λ c₁ same. Holds-bind _ (add_seed seed_id n (add_nft seed_id token farmer)) _ λ farmer' _.
          Holds->>= _ _ (add_amount n seed) _ (add_amount-farms n seed) λ seed' list.
            stored-SameFarms s id seed_id c c₁ (insert sender_id farmer' c₁.farmers) c₁.user_rps
              seed' same.0 (ground (arith, known, list, same.1))
