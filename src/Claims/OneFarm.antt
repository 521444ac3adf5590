-- ===== src/Claims/OneFarm.antt =====
-- When a claim from one farm of a seed succeeds, and what it leaves to the next
-- (ref-farming/src/internals.rs, `claim_user_reward_from_farm`).
use nft_farming.Prelude.{ℕ, ◌+◌, ◌≤◌, ◌<◌, ◌≡◌, ◌≢◌, sym, some, ◌∷◌, ◌++◌, arith}
use nft_farming.Checked.{
  Holds, Holds->>=, Holds-all, Holds-both, Holds-map, Succeeds, Succeeds->>=, Succeeds-both,
  Succeeds-map, checked_add, u32_mod, u128_mod,
}
use nft_farming.Text.{text_eq_refl}
use nft_farming.Map.{Map, unwrap_or, lookup, lookup-insert_ne}
use nft_farming.Utils.{FarmId, AccountId}
use nft_farming.Farm.{
  Farm, claim_user_reward, distribute, accept_distribution, keep_distribution, end_if_empty,
  pay_out,
}
use nft_farming.Farm.Accounts.{IsLive}
use nft_farming.Farm.Backing.{Stakers, stake, IsBacked}
use nft_farming.Farm.Solvency.{IsPaid, claim_user_reward-Succeeds}
use nft_farming.Farmer.{Farmer, UserRps, seed_balance, get_rps, set_rps, add_reward}
use nft_farming.Claims.{claim_user_reward_from_farm}
use nft_farming.Claims.Growth.{balance}
use nft_farming.Claims.Frame.{FarmClaim, SameStake, claim_user_reward_from_farm-SameStake}
use nft_farming.Funds.{unpaid, holding, held_by_farms}
use nft_farming.Funds.Claims.{claim_user_reward_from_farm-paid}
use nft_farming.Funds.Totals.{holding-le}
use nft_farming.Funds.Farms.{claim_user_reward-unpaid}

-- A farm from which an account with these stakes and rps can claim: it is there, it is live, and its
-- unclaimed reward covers what its stakers, this one among them, may claim.
pub record IsClaimable (now amount : ℕ) (stakes : Map ℕ) (farms : Map Farm) (rps : UserRps)
    (id : FarmId) : Type 0 where
  pub farm : Farm
  pub there : lookup id farms ≡ some farm
  pub named : farm.farm_id ≡ id
  pub live : IsLive now farm
  pub before : Stakers
  pub later : Stakers
  pub mine : ℕ
  pub staked : mine ≡ unwrap_or (lookup farm.terms.seed_id stakes) 0
  pub some_staked : 0 < mine
  pub whole : amount ≡ stake (before ++ (mine, get_rps farm.farm_id rps) ∷ later)
  pub backed : IsBacked farm (before ++ (mine, get_rps farm.farm_id rps) ∷ later)
  pub below : get_rps farm.farm_id rps ≤ farm.last_distribution.rps

set_rps-Succeeds :
    (farm_id : FarmId) (value : ℕ) (farmer : Farmer) (rps : UserRps)
    → farmer.rps_count + 1 < u32_mod
    → Succeeds
        (λ (out : Farmer × UserRps).
          (out.0.rps_count ≤ farmer.rps_count + 1) × (out.0.rewards ≡ farmer.rewards))
        (set_rps farm_id value farmer rps)
unfolding set_rps checked_add
set_rps-Succeeds farm_id value farmer rps h = ground arith

add_reward-Succeeds :
    (token : AccountId) (amount : ℕ) (farmer : Farmer)
    → balance token farmer + amount < u128_mod
    → Succeeds (λ (f : Farmer). f.rps_count ≡ farmer.rps_count) (add_reward token amount farmer)
unfolding add_reward checked_add
add_reward-Succeeds token amount farmer h = ground arith

-- One farm's claim, whose reward fits beside the balance.
claim_user_reward_from_farm-Succeeds :
    (now amount : ℕ) (farms : Map Farm) (rps : UserRps) (id : FarmId) (farmer : Farmer)
    → (k : IsClaimable now amount farmer.seeds farms rps id)
    → balance k.farm.terms.reward_token farmer + unpaid k.farm < u128_mod
    → farmer.rps_count + 1 < u32_mod
    → Succeeds
        (λ (out : FarmClaim). out.1.rps_count ≤ farmer.rps_count + 1)
        (claim_user_reward_from_farm now amount k.farm farmer rps)
unfolding claim_user_reward_from_farm
claim_user_reward_from_farm-Succeeds now amount farms rps id farmer k room count =
    let farm = k.farm in
    let seen : ℕ = get_rps farm.farm_id rps in
    rw (k.whole, sym k.staked)
      (Succeeds->>= _ _
        (claim_user_reward now seen k.mine (stake (k.before ++ (k.mine, seen) ∷ k.later)) farm) _
        (Succeeds-both (IsPaid k.mine seen k.before k.later) _ _
          (claim_user_reward-Succeeds now k.mine seen k.before k.later farm k.live k.backed
            k.some_staked k.below)
          (claim_user_reward-unpaid now seen k.mine _ farm))
        λ (out : Farm × ℕ × ℕ) paid.
          Succeeds->>= _ _ (set_rps out.0.farm_id out.1 farmer rps) _
            (set_rps-Succeeds out.0.farm_id out.1 farmer rps count)
            λ (kept : Farmer × UserRps) same.
              ground (
                arith,
                paid,
                same,
                room,
                add_reward-Succeeds out.0.terms.reward_token out.2 kept.0,
              ))

-- What one farm's claim leaves to the next: the stakes, the other farms' rps, and the sum of what the
-- farmer has and the farms hold.
pub record Leaves (farmer : Farmer) (rps : UserRps) (farm : Farm) (out : FarmClaim) : Type 0 where
  pub count : out.1.rps_count ≤ farmer.rps_count + 1
  pub seeds : out.1.seeds ≡ farmer.seeds
  pub others : (j : FarmId) → farm.farm_id ≢ j → get_rps j out.2 ≡ get_rps j rps
  pub paid : (t : AccountId) → balance t out.1 + holding t out.0 ≡ balance t farmer + holding t farm

pub claim_user_reward-farm_id :
    (now user_rps user_seeds total_seeds : ℕ) (farm : Farm)
    → Holds
        (λ (out : Farm × ℕ × ℕ). out.0.farm_id ≡ farm.farm_id)
        (claim_user_reward now user_rps user_seeds total_seeds farm)
unfolding claim_user_reward distribute accept_distribution keep_distribution end_if_empty pay_out
claim_user_reward-farm_id now user_rps user_seeds total_seeds farm = grind arith

set_rps-others :
    (farm_id : FarmId) (value : ℕ) (farmer : Farmer) (rps : UserRps) (j : FarmId)
    → farm_id ≢ j
    → Holds
        (λ (out : Farmer × UserRps). get_rps j out.1 ≡ get_rps j rps)
        (set_rps farm_id value farmer rps)
unfolding set_rps get_rps
set_rps-others farm_id value farmer rps j ne =
    grind (arith, lookup-insert_ne farm_id j value rps ne)

claim_user_reward_from_farm-others :
    (now amount : ℕ) (farm : Farm) (farmer : Farmer) (rps : UserRps) (j : FarmId)
    → farm.farm_id ≢ j
    → Holds
        (λ (out : FarmClaim). get_rps j out.2 ≡ get_rps j rps)
        (claim_user_reward_from_farm now amount farm farmer rps)
unfolding claim_user_reward_from_farm
claim_user_reward_from_farm-others now amount farm farmer rps j ne =
    Holds->>= _ _
      (claim_user_reward now (get_rps farm.farm_id rps) (seed_balance farm.terms.seed_id farmer)
        amount farm)
      _ (claim_user_reward-farm_id now _ _ amount farm)
      λ (out : Farm × ℕ × ℕ) named.
        Holds->>= _ _ (set_rps out.0.farm_id out.1 farmer rps) _
          (set_rps-others out.0.farm_id out.1 farmer rps j (rw named ne))
          λ (kept : Farmer × UserRps) same. ground (arith, same)

-- The id of another farm.
abbrev pub Apart : Farm → Type 0
Apart farm = (j : FarmId) × (farm.farm_id ≢ j)

abbrev pub HasLeft : Farmer → UserRps → Farm → FarmClaim → Type 0
HasLeft farmer rps farm out =
    SameStake farmer out.1
    × ((i : Apart farm) → get_rps i.0 out.2 ≡ get_rps i.0 rps)
    × ((t : AccountId) → balance t out.1 + holding t out.0 ≡ balance t farmer + holding t farm)

pub claim_user_reward_from_farm-HasLeft :
    (now amount : ℕ) (farm : Farm) (farmer : Farmer) (rps : UserRps)
    → Holds (HasLeft farmer rps farm) (claim_user_reward_from_farm now amount farm farmer rps)
claim_user_reward_from_farm-HasLeft now amount farm farmer rps =
    let m = claim_user_reward_from_farm now amount farm farmer rps in
    Holds-map _ (HasLeft farmer rps farm) m
      (Holds-both (λ (out : FarmClaim). SameStake farmer out.1) _ m
        (claim_user_reward_from_farm-SameStake now amount farm farmer rps)
        (Holds-both (λ (out : FarmClaim). (i : Apart farm) → get_rps i.0 out.2 ≡ get_rps i.0 rps) _
          m
          (Holds-all (λ (i : Apart farm) (out : FarmClaim). get_rps i.0 out.2 ≡ get_rps i.0 rps) m
            λ i. claim_user_reward_from_farm-others now amount farm farmer rps i.0 i.1)
          (Holds-all
            (λ t (out : FarmClaim).
              balance t out.1 + holding t out.0 ≡ balance t farmer + holding t farm)
            m λ t. claim_user_reward_from_farm-paid t now amount farm farmer rps)))
      λ out p. (p.0, p.1.0, p.1.1)

pub claim_user_reward_from_farm-Leaves :
    (now amount : ℕ) (farms : Map Farm) (rps : UserRps) (id : FarmId) (farmer : Farmer)
    → (k : IsClaimable now amount farmer.seeds farms rps id)
    → ((token : AccountId) → balance token farmer + held_by_farms token farms < u128_mod)
    → farmer.rps_count + 1 < u32_mod
    → Succeeds (Leaves farmer rps k.farm) (claim_user_reward_from_farm now amount k.farm farmer rps)
claim_user_reward_from_farm-Leaves now amount farms rps id farmer k room count =
    let token = k.farm.terms.reward_token in
    let fits : balance token farmer + unpaid k.farm < u128_mod =
      ground (arith, room token, holding-le token id farms, k.there, text_eq_refl token) in
    Succeeds-map _ (Leaves farmer rps k.farm) _
      (Succeeds-both _ (HasLeft farmer rps k.farm) _
        (claim_user_reward_from_farm-Succeeds now amount farms rps id farmer k fits count)
        (claim_user_reward_from_farm-HasLeft now amount k.farm farmer rps))
      λ out (n, stays). record {
        count = n;
        seeds = stays.0.seeds;
        others = λ j ne. stays.1 (j, ne);
        paid = stays.2;
      }
