-- ===== src/Stakes/Moves.antt =====
-- Staking adds to the stake of its seed, for the account and for the seed alike, and unstaking takes
-- away; no other seed is touched (ref-farming/src/internals.rs).
use nft_farming.Prelude.{
  ℕ, ◌+◌, ◌≡◌, refl, Bool, true, false, Option, none, some, List, [], ◌∷◌, arith, if◌then◌else◌,
}
use nft_farming.Checked.{
  Result, ok, err, Holds, Holds->>=, Holds-bind, Holds-both, Holds-map, ensure, wrong_seed_type,
  err31_seed_not_exist, err10_acc_not_registered, checked_add, expect, unwrap_none,
}
use nft_farming.Text.{Text, text_eq, text_eq_iff, text_eq_refl}
use nft_farming.Map.{lookup, insert, lookup-insert}
use nft_farming.Utils.{
  SeedId, FarmId, AccountId, ContractNftTokenId, NftBalance, contract_nft_token_id,
  get_nft_balance_equivalent,
}
use nft_farming.FarmSeed.{FarmSeed, add_amount}
use nft_farming.Farmer.{Farmer, seed_balance, UserRps, add_seed, add_nft}
use nft_farming.Contract.{Contract, Env}
use nft_farming.Claims.{get_farmer, get_seed, internal_claim_user_reward_by_seed_id}
use nft_farming.Claims.Frame.{SameStake, SameStake-refl, remove_rps-SameStake}
use nft_farming.Rewards.{withdraw_rewards}
use nft_farming.Stakes.{
  internal_seed_deposit, internal_nft_deposit, stake_nft, stake_if_valued, is_nft, remove_all_rps,
}
use nft_farming.Stakes.Sum.{held, staked, recorded, staked-insert, add_seed-balance}
use nft_farming.Stakes.Conservation.{
  SameStakes, claim_by_seed-SameStakes, withdraw_rewards-SameStakes,
}

pub remove_all_rps-SameStake :
    (ids : List FarmId) (farmer : Farmer) (rps : UserRps)
    → Holds (λ (out : Farmer × UserRps). SameStake farmer out.0) (remove_all_rps ids farmer rps)
unfolding remove_all_rps
remove_all_rps-SameStake [] farmer rps = SameStake-refl farmer
remove_all_rps-SameStake (farm_id ∷ rest) farmer rps =
    grind (arith, remove_rps-SameStake, remove_all_rps-SameStake rest)

pub add_amount-amount :
    (n : ℕ) (seed : FarmSeed)
    → Holds (λ (seed' : FarmSeed). seed'.amount ≡ seed.amount + n) (add_amount n seed)
unfolding add_amount checked_add
add_amount-amount n seed = ground arith

module _ (s : SeedId) where
  -- How much of `s` an operation on `seed_id` moves.
  abbrev pub moved : SeedId → ℕ → ℕ
  moved seed_id amount = if text_eq seed_id s then amount else 0

  -- The stake of `s` and its record have grown by `n`, and so has what the account holds.
  abbrev pub HasGrown : AccountId → ℕ → Contract → Contract → Type 0
  HasGrown account n c c' =
      (staked s c'.farmers ≡ staked s c.farmers + n)
      × (recorded (lookup s c'.seeds) ≡ recorded (lookup s c.seeds) + n)
      × (held s (lookup account c'.farmers) ≡ held s (lookup account c.farmers) + n)

  -- Writing a farmer and a seed that have grown.
  pub stored-HasGrown :
      (seed_id : SeedId) (account : AccountId) (n : ℕ) (c : Contract) (farmer farmer' : Farmer)
      (seed seed' : FarmSeed)
      → held s (lookup account c.farmers) ≡ seed_balance s farmer
      → lookup seed_id c.seeds ≡ some seed
      → seed_balance s farmer' ≡ seed_balance s farmer + moved seed_id n
      → seed'.amount ≡ seed.amount + n
      → HasGrown account (moved seed_id n) c (record c {
        seeds = insert seed_id seed' c.seeds;
        farmers = insert account farmer' c.farmers;
      })
  stored-HasGrown seed_id account n c farmer farmer' seed seed' known_farmer known_seed = ground (
    arith,
    lookup-insert seed_id s seed' c.seeds,
    lookup-insert account account farmer' c.farmers,
    staked-insert s account farmer' c.farmers,
    text_eq_iff seed_id s,
    text_eq_refl account,
  )

  -- What a step leaves alone does not count.
  after_same :
      (account : AccountId) (n : ℕ) (c c' : Contract) (m : Result Contract)
      → HasGrown account n c c'
      → Holds (SameStakes s account c') m
      → Holds (HasGrown account n c) m
  after_same account n c c' (ok c'') grown same = ground (arith, grown, same)
  after_same account n c c' (err e) grown same = tt

  pub before_same :
      (account : AccountId) (n : ℕ) (c c' : Contract) (m : Result Contract)
      → SameStakes s account c c'
      → Holds (HasGrown account n c') m
      → Holds (HasGrown account n c) m
  before_same account n c c' (ok c'') same grown = ground (arith, grown, same)
  before_same account n c c' (err e) same grown = tt

  -- The end of a deposit: the farmer and the seed are written, and the rewards are withdrawn.
  deposit_end :
      (seed_id : SeedId) (account : AccountId) (n : ℕ) (c : Contract) (farmer farmer' : Farmer)
      (seed seed' : FarmSeed)
      → held s (lookup account c.farmers) ≡ seed_balance s farmer
      → lookup seed_id c.seeds ≡ some seed
      → seed_balance s farmer' ≡ seed_balance s farmer + moved seed_id n
      → seed'.amount ≡ seed.amount + n
      → Holds (HasGrown account (moved seed_id n) c) (
          withdraw_rewards account farmer' seed'.farms [] (record c {
            seeds = insert seed_id seed' c.seeds;
            farmers = insert account farmer' c.farmers;
          }))
  deposit_end seed_id account n c farmer farmer' seed seed' known_farmer known_seed held' more =
      let stored : Contract = record c {
        seeds = insert seed_id seed' c.seeds;
        farmers = insert account farmer' c.farmers;
      } in
      after_same account (moved seed_id n) c stored _
        (stored-HasGrown seed_id account n c farmer farmer' seed seed' known_farmer known_seed held'
          more)
        (withdraw_rewards-SameStakes s account farmer' seed'.farms [] stored)

  -- A deposit of a seed that does not panic adds its amount to what the account holds of the seed,
  -- to what all farmers hold, and to what the seed records, and changes the stake of no other
  -- seed.
  pub internal_seed_deposit-HasGrown :
      (env : Env) (seed_id : SeedId) (sender_id : AccountId) (amount : ℕ) (c : Contract)
      → Holds
          (HasGrown sender_id (moved seed_id amount) c)
          (internal_seed_deposit env seed_id sender_id amount c)
  unfolding internal_seed_deposit get_seed get_farmer
  internal_seed_deposit-HasGrown env seed_id sender_id amount c =
      Holds->>= _ _ (internal_claim_user_reward_by_seed_id env sender_id seed_id c) _
        (claim_by_seed-SameStakes s env sender_id seed_id c)
        λ c₁ same.
          Holds-bind _ (expect (lookup seed_id c₁.seeds) err31_seed_not_exist) _ λ seed known_seed.
            Holds-bind _ (expect (lookup sender_id c₁.farmers) err10_acc_not_registered) _
              λ farmer known_farmer. before_same sender_id (moved seed_id amount) c c₁ _ same (
                Holds->>= _ _ (add_amount amount seed) _ (add_amount-amount amount seed)
                  λ seed' more.
                    Holds->>= _ _ (add_seed seed_id amount farmer) _
                      (add_seed-balance seed_id s amount farmer)
                      λ farmer' held'.
                        deposit_end seed_id sender_id amount c₁ farmer farmer' seed seed'
                          (ground arith) (ground arith) held' more)

  -- The NFT's seed is read before the claim, which does not change it.
  stake_nft-HasGrown :
      (env : Env) (seed_id : SeedId) (sender_id : AccountId) (token : ContractNftTokenId) (n : ℕ)
      (seed : FarmSeed) (c : Contract)
      → lookup seed_id c.seeds ≡ some seed
      → Holds
          (HasGrown sender_id (moved seed_id n) c)
          (stake_nft env seed_id sender_id token n seed c)
  unfolding stake_nft get_farmer add_nft
  stake_nft-HasGrown env seed_id sender_id token n seed c known_seed =
      Holds->>= _ _ (internal_claim_user_reward_by_seed_id env sender_id seed_id c) _
        (Holds-both _ _ _ (claim_by_seed-SameStakes s env sender_id seed_id c)
          (claim_by_seed-SameStakes seed_id env sender_id seed_id c))
        λ c₁ same.
          Holds-bind _ (expect (lookup sender_id c₁.farmers) err10_acc_not_registered) _
            λ farmer known_farmer. before_same sender_id (moved seed_id n) c c₁ _ same.0 (
              Holds->>= _ _ (add_seed seed_id n (add_nft seed_id token farmer)) _
                (add_seed-balance seed_id s n (add_nft seed_id token farmer))
                λ farmer' held'.
                  Holds->>= _ _ (add_amount n seed) _ (add_amount-amount n seed) λ seed' more.
                    deposit_end seed_id sender_id n c₁ farmer farmer' seed seed' (ground arith)
                      (ground (arith, same.1)) held' more)

  -- A deposit of an NFT is refused and changes nothing, or stakes what the NFT is worth.
  abbrev pub HasStaked : SeedId → AccountId → Option ℕ → Contract → Contract × Bool → Type 0
  HasStaked seed_id account none c (c', staked_now) = (staked_now ≡ false) × (c' ≡ c)
  HasStaked seed_id account (some n) c (c', staked_now) =
      (staked_now ≡ true) × HasGrown account (moved seed_id n) c c'

  stake_if_valued-HasStaked :
      (env : Env) (seed_id : SeedId) (sender_id : AccountId) (token : ContractNftTokenId)
      (value : Option ℕ) (seed : FarmSeed) (c : Contract)
      → lookup seed_id c.seeds ≡ some seed
      → Holds
          (HasStaked seed_id sender_id value c)
          (stake_if_valued env seed_id sender_id token value seed c)
  unfolding stake_if_valued
  stake_if_valued-HasStaked env seed_id sender_id token none seed c known = (refl, refl)
  stake_if_valued-HasStaked env seed_id sender_id token (some n) seed c known =
      Holds->>= _ _ (stake_nft env seed_id sender_id token n seed c) _
        (stake_nft-HasGrown env seed_id sender_id token n seed c known) λ c' grown. (refl, grown)

  -- A deposit of an NFT that does not panic finds the seed's table of values; it changes nothing
  -- and reports `false` where the NFT has no value there, and else reports `true` and adds the
  -- value to what the account holds, to what all farmers hold, and to what the seed records.
  pub internal_nft_deposit-HasStaked :
      (env : Env) (seed_id : SeedId) (sender_id : AccountId) (contract_id token_id : Text)
      (c : Contract)
      → Holds
          (λ out.
            (table : NftBalance) × (lookup seed_id c.nft_balance_seeds ≡ some table)
            × HasStaked seed_id sender_id
                (get_nft_balance_equivalent table (contract_nft_token_id contract_id token_id))
                c
                out)
          (internal_nft_deposit env seed_id sender_id contract_id token_id c)
  unfolding internal_nft_deposit get_seed
  internal_nft_deposit-HasStaked env seed_id sender_id contract_id token_id c =
      let token = contract_nft_token_id contract_id token_id in
      Holds-bind _ (expect (lookup seed_id c.seeds) err31_seed_not_exist) _ λ seed known_seed.
        Holds-bind _ (ensure (is_nft seed.seed_type) wrong_seed_type) _ λ _ _.
          Holds-bind _ (expect (lookup seed_id c.nft_balance_seeds) unwrap_none) _ λ table known.
            Holds-map _ _
              (stake_if_valued env seed_id sender_id token (get_nft_balance_equivalent table token)
                seed c)
              (stake_if_valued-HasStaked env seed_id sender_id token
                (get_nft_balance_equivalent table token) seed c (ground arith))
              λ out done. (table, ground arith, done)
