-- ===== src/Stakes/Keeps.antt =====
-- Staking and unstaking keep every property of the contract that claims keep and that
-- does not depend on what a registered farmer or a seed holds (ref-farming/src/internals.rs).
use nft_farming.Prelude.{
  ◌≡◌, refl, ℕ, Bool, Option, none, some, List, [], ◌∷◌, arith, ◌==◌, if◌then◌else◌,
}
use nft_farming.Checked.{
  ok, Holds, Holds->>=, Holds-bind, Holds-if, expect, ensure, unwrap_none, wrong_seed_type,
}
use nft_farming.Text.{Text}
use nft_farming.Map.{lookup, insert}
use nft_farming.Utils.{
  SeedId, FarmId, AccountId, ContractNftTokenId, contract_nft_token_id, get_nft_balance_equivalent,
}
use nft_farming.Farmer.{Farmer, UserRps, add_seed, sub_seed, add_nft, sub_nft}
use nft_farming.FarmSeed.{FarmSeed, SeedType, add_amount, sub_amount}
use nft_farming.Contract.{Contract, Env, rps_of}
use nft_farming.Claims.{get_farmer, get_seed, internal_claim_user_reward_by_seed_id}
use nft_farming.Claims.Growth.{
  add_seed-rewards, sub_seed-rewards, sub_nft-rewards, remove_all_rps-rewards,
}
use nft_farming.Rewards.{withdraw_rewards}
use nft_farming.Stakes.{
  internal_seed_deposit, internal_seed_withdraw, internal_nft_deposit, internal_nft_withdraw,
  stake_nft, stake_if_valued, is_nft, remove_all_rps, settle_withdrawal,
}
use nft_farming.Stakes.Stability.{IsStable, Replaces, found-Replaces, replaced, add_nft-same}

module _ (P : Contract → Type 0) (stable : IsStable P) where
  pub withdraw_rewards_keeps :
      (sender_id : AccountId) (farmer : Farmer) (ids : List FarmId) (seen : List AccountId)
      (c : Contract)
      → P c
      → Holds P (withdraw_rewards sender_id farmer ids seen c)
  unfolding withdraw_rewards
  withdraw_rewards_keeps sender_id farmer [] seen c h = h
  withdraw_rewards_keeps sender_id farmer (farm_id ∷ rest) seen c h =
      grind (arith, stable.pay, withdraw_rewards_keeps sender_id farmer rest)

  pub internal_seed_deposit_keeps :
      (env : Env) (seed_id : SeedId) (sender_id : AccountId) (amount : ℕ) (c : Contract)
      → P c
      → Holds P (internal_seed_deposit env seed_id sender_id amount c)
  unfolding internal_seed_deposit
  internal_seed_deposit_keeps env seed_id sender_id amount c h =
      Holds->>= P _ (internal_claim_user_reward_by_seed_id env sender_id seed_id c) _
        (stable.claim env sender_id seed_id c h)
        λ c₁ h₁. Holds-bind _ (get_seed seed_id c₁) _ λ seed _.
          Holds-bind _ (get_farmer sender_id c₁) _ λ farmer known.
            Holds-bind _ (add_amount amount seed) _ λ seed' _.
              Holds->>= _ _ (add_seed seed_id amount farmer) _
                (add_seed-rewards seed_id amount farmer)
                λ farmer' same. withdraw_rewards_keeps sender_id farmer' seed'.farms [] _ (
                  stable.write c₁ sender_id farmer' c₁.user_rps (insert seed_id seed' c₁.seeds)
                    (found-Replaces _ _ farmer' known same) h₁)

  settle_withdrawal_keeps :
      (seed_id : SeedId) (account : AccountId) (remain : ℕ) (farmer : Farmer) (seed : FarmSeed)
      (c : Contract)
      → Replaces farmer account c
      → P c
      → Holds P (settle_withdrawal seed_id account remain farmer seed c)
  unfolding settle_withdrawal
  settle_withdrawal_keeps seed_id account remain farmer seed c known h =
      Holds->>= (λ (out : Farmer × UserRps). out.0.rewards ≡ farmer.rewards) _
        (if remain == 0
          then remove_all_rps seed.farms farmer (rps_of account c)
          else ok (farmer, rps_of account c))
        _
        (Holds-if _ (remain == 0) _ _
          (λ _. remove_all_rps-rewards seed.farms farmer (rps_of account c)) (λ _. refl))
        λ out same. withdraw_rewards_keeps account out.0 seed.farms [] _ (
          stable.write c account out.0 (insert account out.1 c.user_rps)
            (insert seed_id seed c.seeds) (replaced account c farmer out.0 known same) h)

  pub internal_seed_withdraw_keeps :
      (env : Env) (seed_id : SeedId) (sender_id : AccountId) (amount : ℕ) (c : Contract)
      → P c
      → Holds
          (λ (out : Contract × SeedType). P out.0)
          (internal_seed_withdraw env seed_id sender_id amount c)
  unfolding internal_seed_withdraw
  internal_seed_withdraw_keeps env seed_id sender_id amount c h =
      Holds->>= P _ (internal_claim_user_reward_by_seed_id env sender_id seed_id c) _
        (stable.claim env sender_id seed_id c h)
        λ c₁ h₁. Holds-bind _ (get_seed seed_id c₁) _ λ seed _.
          Holds-bind _ (get_farmer sender_id c₁) _ λ farmer known.
            Holds->>= _ _ (sub_seed seed_id amount farmer) _
              (sub_seed-rewards seed_id amount farmer)
              λ sub same. Holds-bind _ (sub_amount amount seed) _ λ rest _.
                Holds->>= P _ (settle_withdrawal seed_id sender_id sub.1 sub.0 rest.0 c₁) _
                  (settle_withdrawal_keeps seed_id sender_id sub.1 sub.0 rest.0 c₁
                    (found-Replaces _ _ sub.0 known same) h₁)
                  λ c₂ h₂. h₂

  stake_nft_keeps :
      (env : Env) (seed_id : SeedId) (sender_id : AccountId) (token : ContractNftTokenId) (n : ℕ)
      (seed : FarmSeed) (c : Contract)
      → P c
      → Holds P (stake_nft env seed_id sender_id token n seed c)
  unfolding stake_nft
  stake_nft_keeps env seed_id sender_id token n seed c h =
      Holds->>= P _ (internal_claim_user_reward_by_seed_id env sender_id seed_id c) _
        (stable.claim env sender_id seed_id c h)
        λ c₁ h₁. Holds-bind _ (get_farmer sender_id c₁) _ λ farmer known.
          Holds->>= _ _ (add_seed seed_id n (add_nft seed_id token farmer)) _
            (add_seed-rewards seed_id n (add_nft seed_id token farmer))
            λ farmer' same. Holds-bind _ (add_amount n seed) _ λ seed' _.
              withdraw_rewards_keeps sender_id farmer' seed'.farms [] _ (
                stable.write c₁ sender_id farmer' c₁.user_rps (insert seed_id seed' c₁.seeds)
                  (found-Replaces _ _ farmer' known
                    (add_nft-same seed_id token farmer farmer' same))
                  h₁)

  stake_if_valued_keeps :
      (env : Env) (seed_id : SeedId) (sender_id : AccountId) (token : ContractNftTokenId)
      (value : Option ℕ) (seed : FarmSeed) (c : Contract)
      → P c
      → Holds
          (λ (out : Contract × Bool). P out.0)
          (stake_if_valued env seed_id sender_id token value seed c)
  unfolding stake_if_valued
  stake_if_valued_keeps env seed_id sender_id token none seed c h = h
  stake_if_valued_keeps env seed_id sender_id token (some n) seed c h =
      Holds->>= P _ (stake_nft env seed_id sender_id token n seed c) _
        (stake_nft_keeps env seed_id sender_id token n seed c h) λ c' h'. h'

  pub internal_nft_deposit_keeps :
      (env : Env) (seed_id : SeedId) (sender_id : AccountId) (contract_id token_id : Text)
      (c : Contract)
      → P c
      → Holds
          (λ (out : Contract × Bool). P out.0)
          (internal_nft_deposit env seed_id sender_id contract_id token_id c)
  unfolding internal_nft_deposit
  internal_nft_deposit_keeps env seed_id sender_id contract_id token_id c h =
      Holds-bind _ (get_seed seed_id c) _ λ seed _.
        Holds-bind _ (ensure (is_nft seed.seed_type) wrong_seed_type) _ λ _ _.
          Holds-bind _ (expect (lookup seed_id c.nft_balance_seeds) unwrap_none) _
            λ table _. stake_if_valued_keeps env seed_id sender_id _ _ seed c h

  pub internal_nft_withdraw_keeps :
      (env : Env) (seed_id : SeedId) (sender_id : AccountId) (contract_id token_id : Text)
      (c : Contract)
      → P c
      → Holds
          (λ (out : Contract × ContractNftTokenId). P out.0)
          (internal_nft_withdraw env seed_id sender_id contract_id token_id c)
  unfolding internal_nft_withdraw
  internal_nft_withdraw_keeps env seed_id sender_id contract_id token_id c h =
      let token = contract_nft_token_id contract_id token_id in
      Holds->>= P _ (internal_claim_user_reward_by_seed_id env sender_id seed_id c) _
        (stable.claim env sender_id seed_id c h)
        λ c₁ h₁. Holds-bind _ (get_seed seed_id c₁) _ λ seed _.
          Holds-bind _ (get_farmer sender_id c₁) _ λ farmer known.
            Holds-bind _ (expect (sub_nft seed_id token farmer).1 unwrap_none) _ λ _ _.
              Holds-bind _ (expect (lookup seed_id c₁.nft_balance_seeds) unwrap_none) _ λ table _.
                Holds-bind _ (expect (get_nft_balance_equivalent table token) unwrap_none) _ λ n _.
                  Holds->>= _ _ (sub_seed seed_id n (sub_nft seed_id token farmer).0) _
                    (sub_seed-rewards seed_id n (sub_nft seed_id token farmer).0)
                    λ sub same. Holds-bind _ (sub_amount n seed) _ λ rest _.
                      Holds->>= P _ (settle_withdrawal seed_id sender_id sub.1 sub.0 rest.0 c₁) _
                        (settle_withdrawal_keeps seed_id sender_id sub.1 sub.0 rest.0 c₁
                          (found-Replaces _ _ sub.0 known
                            (cc (same, sub_nft-rewards seed_id token farmer)))
                          h₁)
                        λ c₂ h₂. h₂
