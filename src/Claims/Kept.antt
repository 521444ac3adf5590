-- ===== src/Claims/Kept.antt =====
-- What a claim over the farms of a seed leaves to the rest of a deposit or a withdrawal
-- (ref-farming/src/internals.rs).
use nft_farming.Prelude.{ℕ, ◌≡◌, some, List, [], ◌∷◌, arith, length}
use nft_farming.Checked.{
  Holds, Holds->>=, Holds-all, Holds-bind, Holds-both, checked_add, expect, unwrap_none,
}
use nft_farming.Map.{Map, lookup, insert, lookup-insert, lookup-insert_self}
use nft_farming.Utils.{SeedId, FarmId, AccountId}
use nft_farming.Farm.{Farm, claim_user_reward}
use nft_farming.FarmSeed.{FarmSeed}
use nft_farming.Farmer.{Farmer, UserRps, seed_balance, get_rps, set_rps, add_reward}
use nft_farming.Farmer.Footprint.{Grown, claim_from_farms-Grown}
use nft_farming.Farmer.Rps.{IsRpsCounted, set_rps-IsRpsCounted}
use nft_farming.Contract.{Contract, Env, rps_of}
use nft_farming.Claims.{
  get_farmer, get_seed_wrapped, claim_user_reward_from_farm, claim_from_farms,
  internal_claim_user_reward_by_seed_id,
}
use nft_farming.Claims.Frame.{FarmClaim, SameStake, claim_from_farms-SameStake}
use nft_farming.Claims.Live.{AllClaimable}
use nft_farming.Rewards.Paying.{AllThere}

insert-AllThere :
    (ids : List FarmId) (id : FarmId) (farm : Farm) (farms : Map Farm)
    → AllThere ids farms
    → AllThere ids (insert id farm farms)
insert-AllThere [] id farm farms h = tt
insert-AllThere (j ∷ ids) id farm farms h =
    (ground (arith, h.0, lookup-insert id j farm farms), insert-AllThere ids id farm farms h.1)

claim_from_farms-AllThere :
    (now amount : ℕ) (js ids : List FarmId) (farms : Map Farm) (farmer : Farmer) (rps : UserRps)
    → AllThere js farms
    → Holds
        (λ (out : Map Farm × Farmer × UserRps). AllThere js out.0)
        (claim_from_farms now amount ids farms farmer rps)
unfolding claim_from_farms
claim_from_farms-AllThere now amount js [] farms farmer rps h = h
claim_from_farms-AllThere now amount js (id ∷ ids) farms farmer rps h =
    Holds-bind _ (expect (lookup id farms) unwrap_none) _ λ farm _.
      Holds-bind _ (claim_user_reward_from_farm now amount farm farmer rps) _ λ (out : FarmClaim) _.
        claim_from_farms-AllThere now amount js ids (insert id out.0 farms) out.1 out.2
          (insert-AllThere js id out.0 farms h)

add_reward-rps_count :
    (token : AccountId) (amount : ℕ) (farmer : Farmer)
    → Holds (λ (f : Farmer). f.rps_count ≡ farmer.rps_count) (add_reward token amount farmer)
unfolding add_reward checked_add
add_reward-rps_count token amount farmer = ground arith

claim_user_reward_from_farm-IsRpsCounted :
    (now amount : ℕ) (farm : Farm) (farmer : Farmer) (rps : UserRps)
    → IsRpsCounted (farmer, rps)
    → Holds
        (λ (out : FarmClaim). IsRpsCounted (out.1, out.2))
        (claim_user_reward_from_farm now amount farm farmer rps)
unfolding claim_user_reward_from_farm
claim_user_reward_from_farm-IsRpsCounted now amount farm farmer rps h =
    Holds-bind _
      (claim_user_reward now (get_rps farm.farm_id rps) (seed_balance farm.terms.seed_id farmer)
        amount farm)
      _
      λ (out : Farm × ℕ × ℕ) _.
        Holds->>= _ _ (set_rps out.0.farm_id out.1 farmer rps) _
          (set_rps-IsRpsCounted out.0.farm_id out.0.farm_id out.1 farmer rps h)
          λ (kept : Farmer × UserRps) counted.
            ground (arith, counted.0, add_reward-rps_count out.0.terms.reward_token out.2 kept.0)

claim_from_farms-IsRpsCounted :
    (now amount : ℕ) (ids : List FarmId) (farms : Map Farm) (farmer : Farmer) (rps : UserRps)
    → IsRpsCounted (farmer, rps)
    → Holds
        (λ (out : Map Farm × Farmer × UserRps). IsRpsCounted (out.1, out.2))
        (claim_from_farms now amount ids farms farmer rps)
unfolding claim_from_farms
claim_from_farms-IsRpsCounted now amount [] farms farmer rps h = h
claim_from_farms-IsRpsCounted now amount (id ∷ ids) farms farmer rps h =
    Holds-bind _ (expect (lookup id farms) unwrap_none) _ λ farm _.
      Holds->>= _ _ (claim_user_reward_from_farm now amount farm farmer rps) _
        (claim_user_reward_from_farm-IsRpsCounted now amount farm farmer rps h)
        λ (out : FarmClaim) counted.
          claim_from_farms-IsRpsCounted now amount ids (insert id out.0 farms) out.1 out.2 counted

pub AllClaimable-AllThere :
    (now amount : ℕ) (stakes : Map ℕ) (farms : Map Farm) (rps : UserRps) (ids : List FarmId)
    → AllClaimable now amount stakes farms rps ids
    → AllThere ids farms
AllClaimable-AllThere now amount stakes farms rps [] h = tt
AllClaimable-AllThere now amount stakes farms rps (id ∷ ids) h =
    (ground (arith, h.0.there), AllClaimable-AllThere now amount stakes farms rps ids h.2)

-- After a claim by a farmer with rps `rps`: the seed as it was, all its farms, and a farmer with the
-- same stake, whose count of rps is right if it was.
pub record IsReady (seed_id : SeedId) (sender_id : AccountId) (seed : FarmSeed) (farmer : Farmer)
    (rps : UserRps) (c : Contract) : Type 0 where
  pub farmer' : Farmer
  pub known : lookup sender_id c.farmers ≡ some farmer'
  pub same : SameStake farmer farmer'
  pub size : Grown (length seed.farms) 0 farmer farmer'
  pub found : lookup seed_id c.seeds ≡ some seed
  pub there : AllThere seed.farms c.farms
  pub counted : IsRpsCounted (farmer, rps) → IsRpsCounted (farmer', rps_of sender_id c)

pub claim_by_seed-IsReady :
    (env : Env) (seed_id : SeedId) (sender_id : AccountId) (seed : FarmSeed) (farmer : Farmer)
    (c : Contract)
    → lookup sender_id c.farmers ≡ some farmer
    → lookup seed_id c.seeds ≡ some seed
    → AllThere seed.farms c.farms
    → Holds
        (IsReady seed_id sender_id seed farmer (rps_of sender_id c))
        (internal_claim_user_reward_by_seed_id env sender_id seed_id c)
unfolding internal_claim_user_reward_by_seed_id get_farmer get_seed_wrapped
claim_by_seed-IsReady env seed_id sender_id seed farmer c known found there =
    let now = env.block_timestamp in
    let rps = rps_of sender_id c in
    let m = claim_from_farms now seed.amount seed.farms c.farms farmer rps in
    rw (known, found)
      (Holds->>= _ _ m _
        (Holds-both _ _ m
          (Holds-both _ _ m
            (claim_from_farms-SameStake now seed.amount seed.farms c.farms farmer rps)
            (claim_from_farms-Grown now seed.amount seed.farms c.farms farmer rps))
          (Holds-both _ _ m
            (claim_from_farms-AllThere now seed.amount seed.farms seed.farms c.farms farmer rps
              there)
            (Holds-all
              (λ (_ : IsRpsCounted (farmer, rps)) (out : Map Farm × Farmer × UserRps).
                IsRpsCounted (out.1, out.2))
              m (claim_from_farms-IsRpsCounted now seed.amount seed.farms c.farms farmer rps))))
        λ (out : Map Farm × Farmer × UserRps) h. record {
          farmer' = out.1;
          known = lookup-insert_self sender_id out.1 c.farmers;
          same = h.0.0;
          size = h.0.1;
          found = lookup-insert_self seed_id seed c.seeds;
          there = h.1.0;
          counted = λ counted. rw (lookup-insert_self sender_id out.2 c.user_rps) (h.1.1 counted);
        })
