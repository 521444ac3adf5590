-- ===== src/Stakes/Others.antt =====
-- Claiming, paying, staking and unstaking for one account leave every other account's farmer as it was
-- (ref-farming/src/internals.rs and lib.rs).
use nft_farming.Prelude.{
  ℕ, ◌≡◌, ◌≢◌, Bool, Option, none, some, List, [], ◌∷◌, arith, ◌==◌, if◌then◌else◌,
}
use nft_farming.Checked.{
  ok, Holds, Holds->>=, Holds-bind, ensure, expect, unwrap_none, wrong_seed_type,
}
use nft_farming.Text.{Text}
use nft_farming.Map.{lookup, unwrap_or, lookup-insert_ne}
use nft_farming.Utils.{
  SeedId, FarmId, AccountId, ContractNftTokenId, contract_nft_token_id, get_nft_balance_equivalent,
}
use nft_farming.Farmer.{Farmer, UserRps, add_seed, sub_seed, sub_reward, sub_nft, add_nft}
use nft_farming.FarmSeed.{FarmSeed, SeedType, add_amount, sub_amount}
use nft_farming.Contract.{Contract, Env, rps_of}
use nft_farming.Claims.{
  get_farmer, get_seed, get_seed_wrapped, internal_claim_user_reward_by_seed_id,
  internal_claim_user_reward_by_farm_id,
}
use nft_farming.Rewards.{internal_execute_withdraw_reward, withdraw_rewards}
use nft_farming.Stakes.{
  internal_seed_deposit, internal_seed_withdraw, internal_nft_deposit, internal_nft_withdraw,
  settle_withdrawal, remove_all_rps, stake_nft, stake_if_valued, is_nft,
}

module _ (a : AccountId) (o : Option Farmer) where
  -- The account's farmer is `o`.
  abbrev pub Stands : Contract → Type 0
  Stands c = lookup a c.farmers ≡ o

  pub internal_execute_withdraw_reward-Stands :
      (token_id sender_id : AccountId) (amount : Option ℕ) (c : Contract)
      → sender_id ≢ a
      → Stands c
      → Holds Stands (internal_execute_withdraw_reward token_id sender_id amount c)
  unfolding internal_execute_withdraw_reward
  internal_execute_withdraw_reward-Stands token_id sender_id amount c ne h =
      Holds-bind _ (get_farmer sender_id c) _ λ farmer _.
        Holds-bind _ (sub_reward token_id (unwrap_or amount 0) farmer) _
          λ out _. rw (lookup-insert_ne sender_id a out.0 c.farmers ne) h

  pub withdraw_rewards-Stands :
      (sender_id : AccountId) (farmer : Farmer) (ids : List FarmId) (seen : List AccountId)
      (c : Contract)
      → sender_id ≢ a
      → Stands c
      → Holds Stands (withdraw_rewards sender_id farmer ids seen c)
  unfolding withdraw_rewards
  withdraw_rewards-Stands sender_id farmer [] seen c ne h = h
  withdraw_rewards-Stands sender_id farmer (id ∷ ids) seen c ne h =
      grind (
        arith,
        internal_execute_withdraw_reward-Stands,
        withdraw_rewards-Stands sender_id farmer ids,
      )

  pub claim_by_seed-Stands :
      (env : Env) (sender_id : AccountId) (seed_id : SeedId) (c : Contract)
      → sender_id ≢ a
      → Stands c
      → Holds Stands (internal_claim_user_reward_by_seed_id env sender_id seed_id c)
  unfolding internal_claim_user_reward_by_seed_id get_seed_wrapped
  claim_by_seed-Stands env sender_id seed_id c ne h =
      grind (arith, lookup-insert_ne {V = Farmer} sender_id a)

  pub claim_by_farm-Stands :
      (env : Env) (sender_id : AccountId) (farm_id : FarmId) (c : Contract)
      → sender_id ≢ a
      → Stands c
      → Holds Stands (internal_claim_user_reward_by_farm_id env sender_id farm_id c)
  unfolding internal_claim_user_reward_by_farm_id get_seed_wrapped
  claim_by_farm-Stands env sender_id farm_id c ne h =
      grind (arith, lookup-insert_ne {V = Farmer} sender_id a)

  pub internal_seed_deposit-Stands :
      (env : Env) (seed_id : SeedId) (sender_id : AccountId) (amount : ℕ) (c : Contract)
      → sender_id ≢ a
      → Stands c
      → Holds Stands (internal_seed_deposit env seed_id sender_id amount c)
  unfolding internal_seed_deposit
  internal_seed_deposit-Stands env seed_id sender_id amount c ne h =
      Holds->>= Stands _ (internal_claim_user_reward_by_seed_id env sender_id seed_id c) _
        (claim_by_seed-Stands env sender_id seed_id c ne h)
        λ c₁ h₁. Holds-bind _ (get_seed seed_id c₁) _ λ seed _.
          Holds-bind _ (get_farmer sender_id c₁) _ λ farmer _.
            Holds-bind _ (add_amount amount seed) _ λ seed' _.
              Holds-bind _ (add_seed seed_id amount farmer) _ λ farmer' _.
                withdraw_rewards-Stands sender_id farmer' seed'.farms [] _ ne
                  (rw (lookup-insert_ne sender_id a farmer' c₁.farmers ne) h₁)

  settle_withdrawal-Stands :
      (seed_id : SeedId) (sender_id : AccountId) (remain : ℕ) (farmer : Farmer) (seed : FarmSeed)
      (c : Contract)
      → sender_id ≢ a
      → Stands c
      → Holds Stands (settle_withdrawal seed_id sender_id remain farmer seed c)
  unfolding settle_withdrawal
  settle_withdrawal-Stands seed_id sender_id remain farmer seed c ne h =
      Holds-bind _
        (if remain == 0
          then remove_all_rps seed.farms farmer (rps_of sender_id c)
          else ok (farmer, rps_of sender_id c))
        _
        λ (out : Farmer × UserRps) _.
          withdraw_rewards-Stands sender_id out.0 seed.farms [] _ ne
            (rw (lookup-insert_ne sender_id a out.0 c.farmers ne) h)

  pub internal_seed_withdraw-Stands :
      (env : Env) (seed_id : SeedId) (sender_id : AccountId) (amount : ℕ) (c : Contract)
      → sender_id ≢ a
      → Stands c
      → Holds
          (λ (out : Contract × SeedType). Stands out.0)
          (internal_seed_withdraw env seed_id sender_id amount c)
  unfolding internal_seed_withdraw
  internal_seed_withdraw-Stands env seed_id sender_id amount c ne h =
      Holds->>= Stands _ (internal_claim_user_reward_by_seed_id env sender_id seed_id c) _
        (claim_by_seed-Stands env sender_id seed_id c ne h)
        λ c₁ h₁. Holds-bind _ (get_seed seed_id c₁) _ λ seed _.
          Holds-bind _ (get_farmer sender_id c₁) _ λ farmer _.
            Holds-bind _ (sub_seed seed_id amount farmer) _ λ sub _.
              Holds-bind _ (sub_amount amount seed) _ λ rest _.
                Holds->>= Stands _ (settle_withdrawal seed_id sender_id sub.1 sub.0 rest.0 c₁) _
                  (settle_withdrawal-Stands seed_id sender_id sub.1 sub.0 rest.0 c₁ ne h₁)
                  λ c₂ h₂. h₂

  stake_if_valued-Stands :
      (env : Env) (seed_id : SeedId) (sender_id : AccountId) (token : ContractNftTokenId)
      (value : Option ℕ) (seed : FarmSeed) (c : Contract)
      → sender_id ≢ a
      → Stands c
      → Holds
          (λ (out : Contract × Bool). Stands out.0)
          (stake_if_valued env seed_id sender_id token value seed c)
  unfolding stake_if_valued stake_nft
  stake_if_valued-Stands env seed_id sender_id token none seed c ne h = h
  stake_if_valued-Stands env seed_id sender_id token (some n) seed c ne h =
      Holds->>= Stands _ (stake_nft env seed_id sender_id token n seed c) _
        (Holds->>= Stands Stands (internal_claim_user_reward_by_seed_id env sender_id seed_id c) _
          (claim_by_seed-Stands env sender_id seed_id c ne h)
          λ c₁ h₁. Holds-bind _ (get_farmer sender_id c₁) _ λ farmer _.
            Holds-bind _ (add_seed seed_id n (add_nft seed_id token farmer)) _ λ farmer' _.
              Holds-bind _ (add_amount n seed) _ λ seed' _.
                withdraw_rewards-Stands sender_id farmer' seed'.farms [] _ ne
                  (rw (lookup-insert_ne sender_id a farmer' c₁.farmers ne) h₁))
        λ c' h'. h'

  pub internal_nft_deposit-Stands :
      (env : Env) (seed_id : SeedId) (sender_id : AccountId) (contract_id token_id : Text)
      (c : Contract)
      → sender_id ≢ a
      → Stands c
      → Holds
          (λ (out : Contract × Bool). Stands out.0)
          (internal_nft_deposit env seed_id sender_id contract_id token_id c)
  unfolding internal_nft_deposit
  internal_nft_deposit-Stands env seed_id sender_id contract_id token_id c ne h =
      Holds-bind _ (get_seed seed_id c) _ λ seed _.
        Holds-bind _ (ensure (is_nft seed.seed_type) wrong_seed_type) _ λ _ _.
          Holds-bind _ (expect (lookup seed_id c.nft_balance_seeds) unwrap_none) _
            λ table _. stake_if_valued-Stands env seed_id sender_id _ _ seed c ne h

  pub internal_nft_withdraw-Stands :
      (env : Env) (seed_id : SeedId) (sender_id : AccountId) (contract_id token_id : Text)
      (c : Contract)
      → sender_id ≢ a
      → Stands c
      → Holds
          (λ (out : Contract × ContractNftTokenId). Stands out.0)
          (internal_nft_withdraw env seed_id sender_id contract_id token_id c)
  unfolding internal_nft_withdraw
  internal_nft_withdraw-Stands env seed_id sender_id contract_id token_id c ne h =
      let token = contract_nft_token_id contract_id token_id in
      Holds->>= Stands _ (internal_claim_user_reward_by_seed_id env sender_id seed_id c) _
        (claim_by_seed-Stands env sender_id seed_id c ne h)
        λ c₁ h₁. Holds-bind _ (get_seed seed_id c₁) _ λ seed _.
          Holds-bind _ (get_farmer sender_id c₁) _ λ farmer _.
            Holds-bind _ (expect (sub_nft seed_id token farmer).1 unwrap_none) _ λ _ _.
              Holds-bind _ (expect (lookup seed_id c₁.nft_balance_seeds) unwrap_none) _ λ table _.
                Holds-bind _ (expect (get_nft_balance_equivalent table token) unwrap_none) _ λ n _.
                  Holds-bind _ (sub_seed seed_id n (sub_nft seed_id token farmer).0) _ λ sub _.
                    Holds-bind _ (sub_amount n seed) _ λ rest _.
                      Holds->>= Stands _ (settle_withdrawal seed_id sender_id sub.1 sub.0 rest.0 c₁)
                        _ (settle_withdrawal-Stands seed_id sender_id sub.1 sub.0 rest.0 c₁ ne h₁)
                        λ c₂ h₂. h₂
