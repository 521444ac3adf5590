-- ===== src/Calls/Restake.antt =====
-- A failed transfer of a withdrawn seed or NFT stakes it again (ref-farming/src/lib.rs,
-- `callback_post_withdraw_ft_seed` and `callback_post_withdraw_nft`).
use nft_farming.Prelude.{ℕ, ◌≡◌, refl, Option, none, some, arith, ◌⊎◌, inl, inr}
use nft_farming.Checked.{
  ok, ◌>>=◌, Holds, Holds->>=, Holds-bind, Holds-both, Holds-map, expect, unwrap_none,
  err10_acc_not_registered, err31_seed_not_exist,
}
use nft_farming.Text.{Text}
use nft_farming.Map.{lookup, insert}
use nft_farming.Utils.{
  SeedId, AccountId, NftBalance, ContractNftTokenId, contract_nft_token_id,
  get_nft_balance_equivalent,
}
use nft_farming.FarmSeed.{FarmSeed, add_amount}
use nft_farming.Farmer.{Farmer, add_seed, add_nft}
use nft_farming.Contract.{Contract, Env, not_ready, successful, failed}
use nft_farming.Claims.{get_farmer, get_seed, internal_claim_user_reward_by_seed_id}
use nft_farming.Rewards.{only_result}
use nft_farming.Calls.{callback_post_withdraw_ft_seed, callback_post_withdraw_nft, restake_nft}
use nft_farming.Stakes.Sum.{add_seed-balance}
use nft_farming.Stakes.Conservation.{claim_by_seed-SameStakes}
use nft_farming.Stakes.Moves.{HasGrown, moved, stored-HasGrown, before_same, add_amount-amount}

module _ (s : SeedId) where
  -- Nothing has changed after a transfer that succeeded, and the stake is back after one that failed.
  abbrev pub IsGivenBack : Env → SeedId → AccountId → ℕ → Contract → Contract → Type 0
  IsGivenBack env seed_id account n c c' =
      (only_result env ≡ ok successful) × (c' ≡ c)
      ⊎ (only_result env ≡ ok failed) × HasGrown s account (moved s seed_id n) c c'

  restake_seed-HasGrown :
      (env : Env) (seed_id : SeedId) (sender_id : AccountId) (amount : ℕ) (c : Contract)
      → Holds (HasGrown s sender_id (moved s seed_id amount) c) (
          internal_claim_user_reward_by_seed_id env sender_id seed_id c >>= λ c₁.
          get_seed seed_id c₁ >>= λ seed. add_amount amount seed >>= λ seed'.
          get_farmer sender_id c₁ >>= λ farmer. add_seed seed_id amount farmer >>= λ farmer'.
          ok (record c₁ {
            seeds = insert seed_id seed' c₁.seeds;
            farmers = insert sender_id farmer' c₁.farmers;
          }))
  unfolding get_seed get_farmer
  restake_seed-HasGrown env seed_id sender_id amount c =
      Holds->>= _ _ (internal_claim_user_reward_by_seed_id env sender_id seed_id c) _
        (claim_by_seed-SameStakes s env sender_id seed_id c)
        λ c₁ same. before_same s sender_id (moved s seed_id amount) c c₁ _ same (
          Holds-bind _ (expect (lookup seed_id c₁.seeds) err31_seed_not_exist) _ λ seed known_seed.
            Holds->>= _ _ (add_amount amount seed) _ (add_amount-amount amount seed) λ seed' more.
              Holds-bind _ (expect (lookup sender_id c₁.farmers) err10_acc_not_registered) _
                λ farmer known_farmer.
                  Holds->>= _ _ (add_seed seed_id amount farmer) _
                    (add_seed-balance seed_id s amount farmer)
                    λ farmer' held'.
                      stored-HasGrown s seed_id sender_id amount c₁ farmer farmer' seed seed'
                        (ground arith) (ground arith) held' more)

  -- The callback of a withdrawn seed's transfer, where it does not panic, changes nothing after a
  -- transfer that succeeded, and after one that failed it gives the stake back: to the account, to
  -- all farmers' stake and to the seed's record.
  pub callback_post_withdraw_ft_seed-IsGivenBack :
      (env : Env) (seed_id : SeedId) (sender_id : AccountId) (amount : ℕ) (c : Contract)
      → Holds
          (IsGivenBack env seed_id sender_id amount c)
          (callback_post_withdraw_ft_seed env seed_id sender_id amount c)
  unfolding callback_post_withdraw_ft_seed
  callback_post_withdraw_ft_seed-IsGivenBack env seed_id sender_id amount c =
      Holds-bind _ (only_result env) _ (elim [
        | not_ready ↦ λ _. tt
        | successful ↦ λ e. inl (e, refl)
        | failed ↦ λ e.
            Holds-map _ (IsGivenBack env seed_id sender_id amount c) _
              (restake_seed-HasGrown env seed_id sender_id amount c) λ c' grown. inr (e, grown)
      ])

  -- The farmer and the seed were read before the claim: what they stake is not stale.
  restake_nft-HasGrown :
      (env : Env) (seed_id : SeedId) (sender_id : AccountId) (token : ContractNftTokenId) (n : ℕ)
      (farmer : Farmer) (seed : FarmSeed) (c : Contract)
      → lookup sender_id c.farmers ≡ some farmer
      → lookup seed_id c.seeds ≡ some seed
      → Holds
          (HasGrown s sender_id (moved s seed_id n) c)
          (restake_nft env seed_id sender_id token (some n) farmer seed c)
  unfolding restake_nft add_nft
  restake_nft-HasGrown env seed_id sender_id token n farmer seed c known_farmer known_seed =
      Holds->>= _ _ (internal_claim_user_reward_by_seed_id env sender_id seed_id c) _
        (Holds-both _ _ _ (claim_by_seed-SameStakes s env sender_id seed_id c)
          (claim_by_seed-SameStakes seed_id env sender_id seed_id c))
        λ c₁ same. before_same s sender_id (moved s seed_id n) c c₁ _ same.0 (
          Holds->>= _ _ (add_seed seed_id n (add_nft seed_id token farmer)) _
            (add_seed-balance seed_id s n (add_nft seed_id token farmer))
            λ farmer' held'.
              Holds->>= _ _ (add_amount n seed) _ (add_amount-amount n seed) λ seed' more.
                stored-HasGrown s seed_id sender_id n c₁ farmer farmer' seed seed'
                  (ground (arith, same.0, known_farmer)) (ground (arith, same.1, known_seed)) held'
                  more)

  -- An NFT without a value under its seed is not staked.
  abbrev pub IsRestaked : SeedId → AccountId → Option ℕ → Contract → Contract → Type 0
  IsRestaked seed_id account none c c' = c' ≡ c
  IsRestaked seed_id account (some n) c c' = HasGrown s account (moved s seed_id n) c c'

  restake_nft-IsRestaked :
      (env : Env) (seed_id : SeedId) (sender_id : AccountId) (token : ContractNftTokenId)
      (value : Option ℕ) (farmer : Farmer) (seed : FarmSeed) (c : Contract)
      → lookup sender_id c.farmers ≡ some farmer
      → lookup seed_id c.seeds ≡ some seed
      → Holds
          (IsRestaked seed_id sender_id value c)
          (restake_nft env seed_id sender_id token value farmer seed c)
  unfolding restake_nft
  restake_nft-IsRestaked env seed_id sender_id token none farmer seed c f g = refl
  restake_nft-IsRestaked env seed_id sender_id token (some n) farmer seed c f g =
      restake_nft-HasGrown env seed_id sender_id token n farmer seed c f g

  -- What the callback of an NFT's transfer did.
  abbrev pub IsNftGivenBack :
      Env → SeedId → AccountId → ContractNftTokenId → Contract → Contract → Type 0
  IsNftGivenBack env seed_id account token c c' =
      (only_result env ≡ ok successful) × (c' ≡ c)
      ⊎ (only_result env ≡ ok failed)
        × (table : NftBalance) × (lookup seed_id c.nft_balance_seeds ≡ some table)
        × IsRestaked seed_id account (get_nft_balance_equivalent table token) c c'

  -- The callback of a withdrawn NFT's transfer, where it does not panic, changes nothing after a
  -- transfer that succeeded; after one that failed it changes nothing for an NFT without a value
  -- under its seed, and else gives the stake back: to the account, to all farmers' stake and to
  -- the seed's record.
  pub callback_post_withdraw_nft-IsNftGivenBack :
      (env : Env) (seed_id : SeedId) (sender_id : AccountId) (contract_id token_id : Text)
      (c : Contract)
      → Holds
          (IsNftGivenBack env seed_id sender_id (contract_nft_token_id contract_id token_id) c)
          (callback_post_withdraw_nft env seed_id sender_id contract_id token_id c)
  unfolding callback_post_withdraw_nft get_farmer get_seed
  callback_post_withdraw_nft-IsNftGivenBack env seed_id sender_id contract_id token_id c =
      Holds-bind _ (only_result env) _ (elim [
        | not_ready ↦ λ _. tt
        | successful ↦ λ e. inl (e, refl)
        | failed ↦ λ e.
            Holds-bind _ (expect (lookup sender_id c.farmers) err10_acc_not_registered) _
              λ farmer f.
                Holds-bind _ (expect (lookup seed_id c.seeds) err31_seed_not_exist) _ λ seed g.
                  Holds-bind _ (expect (lookup seed_id c.nft_balance_seeds) unwrap_none) _
                    λ table t.
                      let token = contract_nft_token_id contract_id token_id in
                      let value = get_nft_balance_equivalent table token in
                      Holds-map _ (IsNftGivenBack env seed_id sender_id token c)
                        (restake_nft env seed_id sender_id token value farmer seed c)
                        (restake_nft-IsRestaked env seed_id sender_id token value farmer seed c
                          (ground arith) (ground arith))
                        λ c' done. inr (e, table, ground arith, done)
      ])
