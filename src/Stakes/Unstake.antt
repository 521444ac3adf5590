-- ===== src/Stakes/Unstake.antt =====
-- Unstaking takes the same amount from what the account holds, from the stake and from its record
-- (ref-farming/src/internals.rs, `internal_seed_withdraw` and `internal_nft_withdraw`).
use nft_farming.Prelude.{ℕ, ◌+◌, ◌≡◌, some, [], arith, ◌==◌, if◌then◌else◌}
use nft_farming.Checked.{
  Result, ok, err, Holds, Holds->>=, Holds-bind, Holds-both, Holds-if, err31_seed_not_exist,
  err10_acc_not_registered, checked_sub, expect, unwrap_none,
}
use nft_farming.Text.{Text, text_eq_iff, text_eq_refl}
use nft_farming.Map.{lookup, insert, lookup-insert}
use nft_farming.Utils.{
  SeedId, AccountId, ContractNftTokenId, NftBalance, contract_nft_token_id,
  get_nft_balance_equivalent,
}
use nft_farming.FarmSeed.{FarmSeed, SeedType, sub_amount}
use nft_farming.Farmer.{Farmer, UserRps, seed_balance, sub_seed, sub_nft}
use nft_farming.Contract.{Contract, Env, rps_of}
use nft_farming.Claims.{
  get_farmer, get_seed, get_seed_wrapped, internal_claim_user_reward_by_seed_id,
}
use nft_farming.Claims.Frame.{SameStake, SameStake-refl}
use nft_farming.Stakes.{
  internal_seed_withdraw, internal_nft_withdraw, remove_all_rps, settle_withdrawal,
}
use nft_farming.Stakes.Sum.{held, staked, recorded, staked-insert, sub_seed-balance}
use nft_farming.Stakes.Conservation.{
  SameStakes, claim_by_seed-SameStakes, withdraw_rewards-SameStakes,
}
use nft_farming.Stakes.Moves.{moved, remove_all_rps-SameStake}

sub_amount-amount :
    (n : ℕ) (seed : FarmSeed)
    → Holds (λ (out : FarmSeed × ℕ). out.0.amount + n ≡ seed.amount) (sub_amount n seed)
unfolding sub_amount checked_sub
sub_amount-amount n seed = ground arith

sub_nft-SameStake :
    (seed_id : SeedId) (token : ContractNftTokenId) (farmer : Farmer)
    → (sub_nft seed_id token farmer).0.seeds ≡ farmer.seeds
unfolding sub_nft
sub_nft-SameStake seed_id token farmer = ground arith

pub claim_by_seed-nft_balance_seeds :
    (env : Env) (sender_id : AccountId) (seed_id : SeedId) (c : Contract)
    → Holds
        (λ (c' : Contract). c'.nft_balance_seeds ≡ c.nft_balance_seeds)
        (internal_claim_user_reward_by_seed_id env sender_id seed_id c)
unfolding internal_claim_user_reward_by_seed_id get_farmer get_seed_wrapped
claim_by_seed-nft_balance_seeds env sender_id seed_id c = ground arith

module _ (s : SeedId) where
  -- The stake of `s` and its record have shrunk by `n`, and so has what the account holds.
  abbrev pub HasShrunk : AccountId → ℕ → Contract → Contract → Type 0
  HasShrunk account n c c' =
      (staked s c'.farmers + n ≡ staked s c.farmers)
      × (recorded (lookup s c'.seeds) + n ≡ recorded (lookup s c.seeds))
      × (held s (lookup account c'.farmers) + n ≡ held s (lookup account c.farmers))

  stored-HasShrunk :
      (seed_id : SeedId) (account : AccountId) (n : ℕ) (c : Contract) (farmer farmer' : Farmer)
      (seed seed' : FarmSeed) (rps : UserRps)
      → held s (lookup account c.farmers) ≡ seed_balance s farmer
      → lookup seed_id c.seeds ≡ some seed
      → seed_balance s farmer' + moved s seed_id n ≡ seed_balance s farmer
      → seed'.amount + n ≡ seed.amount
      → HasShrunk account (moved s seed_id n) c (record c {
        farmers = insert account farmer' c.farmers;
        user_rps = insert account rps c.user_rps;
        seeds = insert seed_id seed' c.seeds;
      })
  stored-HasShrunk seed_id account n c farmer farmer' seed seed' rps known_farmer known_seed =
      ground (
        arith,
        lookup-insert seed_id s seed' c.seeds,
        lookup-insert account account farmer' c.farmers,
        staked-insert s account farmer' c.farmers,
        text_eq_iff seed_id s,
        text_eq_refl account,
      )

  shrunk_same :
      (account : AccountId) (n : ℕ) (c c₁ c₂ : Contract) (m : Result Contract)
      → SameStakes s account c c₁
      → HasShrunk account n c₁ c₂
      → Holds (SameStakes s account c₂) m
      → Holds (HasShrunk account n c) m
  shrunk_same account n c c₁ c₂ (ok c₃) same shrunk same' = ground (arith, same, shrunk, same')
  shrunk_same account n c c₁ c₂ (err e) same shrunk same' = tt

  settle_withdrawal-HasShrunk :
      (seed_id : SeedId) (account : AccountId) (n remain : ℕ) (c c₁ : Contract)
      (farmer farmer' : Farmer) (seed seed' : FarmSeed)
      → SameStakes s account c c₁
      → held s (lookup account c₁.farmers) ≡ seed_balance s farmer
      → lookup seed_id c₁.seeds ≡ some seed
      → seed_balance s farmer' + moved s seed_id n ≡ seed_balance s farmer
      → seed'.amount + n ≡ seed.amount
      → Holds
          (HasShrunk account (moved s seed_id n) c)
          (settle_withdrawal seed_id account remain farmer' seed' c₁)
  unfolding settle_withdrawal
  settle_withdrawal-HasShrunk seed_id account n remain c c₁ farmer farmer' seed seed' same
        known_farmer known_seed held' less =
      Holds->>= (λ (out : Farmer × UserRps). SameStake farmer' out.0) _
        (if remain == 0
          then remove_all_rps seed'.farms farmer' (rps_of account c₁)
          else ok (farmer', rps_of account c₁))
        _
        (Holds-if _ (remain == 0) _ _
          (λ _. remove_all_rps-SameStake seed'.farms farmer' (rps_of account c₁))
          (λ _. SameStake-refl farmer'))
        λ out kept.
          let stored : Contract = record c₁ {
            farmers = insert account out.0 c₁.farmers;
            user_rps = insert account out.1 c₁.user_rps;
            seeds = insert seed_id seed' c₁.seeds;
          } in
          shrunk_same account (moved s seed_id n) c c₁ stored _ same
            (stored-HasShrunk seed_id account n c₁ farmer out.0 seed seed' out.1 known_farmer
              known_seed (ground (arith, kept, held')) less)
            (withdraw_rewards-SameStakes s account out.0 seed'.farms [] stored)

  -- A withdrawal of a seed that does not panic takes its amount from what the account holds of the
  -- seed, from what all farmers hold, and from what the seed records, and changes the stake of no
  -- other seed; an amount of 0 takes nothing.
  pub internal_seed_withdraw-HasShrunk :
      (env : Env) (seed_id : SeedId) (sender_id : AccountId) (amount : ℕ) (c : Contract)
      → Holds
          (λ (out : Contract × SeedType). HasShrunk sender_id (moved s seed_id amount) c out.0)
          (internal_seed_withdraw env seed_id sender_id amount c)
  unfolding internal_seed_withdraw get_seed get_farmer
  internal_seed_withdraw-HasShrunk env seed_id sender_id amount c =
      Holds->>= _ _ (internal_claim_user_reward_by_seed_id env sender_id seed_id c) _
        (claim_by_seed-SameStakes s env sender_id seed_id c)
        λ c₁ same.
          Holds-bind _ (expect (lookup seed_id c₁.seeds) err31_seed_not_exist) _ λ seed known_seed.
            Holds-bind _ (expect (lookup sender_id c₁.farmers) err10_acc_not_registered) _
              λ farmer known_farmer.
                Holds->>= _ _ (sub_seed seed_id amount farmer) _
                  (sub_seed-balance seed_id s amount farmer)
                  λ sub held'.
                    Holds->>= _ _ (sub_amount amount seed) _ (sub_amount-amount amount seed)
                      λ rest less.
                        Holds->>= _ _ (settle_withdrawal seed_id sender_id sub.1 sub.0 rest.0 c₁) _
                          (settle_withdrawal-HasShrunk seed_id sender_id amount sub.1 c c₁ farmer
                            sub.0 seed rest.0 same (ground arith) (ground arith) held'.0 less)
                          λ c₂ shrunk. shrunk

  -- An NFT is unstaked for what it is worth under the seed.
  abbrev pub HasUnstaked : SeedId → AccountId → ContractNftTokenId → Contract → Contract → Type 0
  HasUnstaked seed_id account token c c' =
      (table : NftBalance) × (n : ℕ) × (lookup seed_id c.nft_balance_seeds ≡ some table)
      × (get_nft_balance_equivalent table token ≡ some n)
      × HasShrunk account (moved s seed_id n) c c'

  -- A withdrawal of an NFT that does not panic takes the value that the NFT has under the seed
  -- from what the account holds, from what all farmers hold, and from what the seed records, and
  -- changes the stake of no other seed.
  pub internal_nft_withdraw-HasUnstaked :
      (env : Env) (seed_id : SeedId) (sender_id : AccountId) (contract_id token_id : Text)
      (c : Contract)
      → Holds
          (λ (out : Contract × ContractNftTokenId).
            HasUnstaked seed_id sender_id (contract_nft_token_id contract_id token_id) c out.0)
          (internal_nft_withdraw env seed_id sender_id contract_id token_id c)
  unfolding internal_nft_withdraw get_seed get_farmer
  internal_nft_withdraw-HasUnstaked env seed_id sender_id contract_id token_id c =
      let token = contract_nft_token_id contract_id token_id in
      Holds->>= _ _ (internal_claim_user_reward_by_seed_id env sender_id seed_id c) _
        (Holds-both _ _ _ (claim_by_seed-SameStakes s env sender_id seed_id c)
          (claim_by_seed-nft_balance_seeds env sender_id seed_id c))
        λ c₁ same.
          Holds-bind _ (expect (lookup seed_id c₁.seeds) err31_seed_not_exist) _ λ seed known_seed.
            Holds-bind _ (expect (lookup sender_id c₁.farmers) err10_acc_not_registered) _
              λ farmer known_farmer.
                Holds-bind _ (expect (sub_nft seed_id token farmer).1 unwrap_none) _ λ _ _.
                  Holds-bind _ (expect (lookup seed_id c₁.nft_balance_seeds) unwrap_none) _
                    λ table known.
                      Holds-bind _ (expect (get_nft_balance_equivalent table token) unwrap_none) _
                        λ n worth.
                          Holds->>= _ _ (sub_seed seed_id n (sub_nft seed_id token farmer).0) _
                            (sub_seed-balance seed_id s n (sub_nft seed_id token farmer).0)
                            λ sub held'.
                              Holds->>= _ _ (sub_amount n seed) _ (sub_amount-amount n seed)
                                λ rest less.
                                  Holds->>= _ _
                                    (settle_withdrawal seed_id sender_id sub.1 sub.0 rest.0 c₁) _
                                    (settle_withdrawal-HasShrunk seed_id sender_id n sub.1 c c₁
                                      farmer sub.0 seed rest.0 same.0 (ground arith) (ground arith)
                                      (ground
                                        (arith, held', sub_nft-SameStake seed_id token farmer))
                                      less)
                                    λ c₂ shrunk. (
                                      table,
                                      n,
                                      ground (arith, same.1, known),
                                      ground arith,
                                      shrunk,
                                    )
