-- ===== src/Claims/Growth.antt =====
-- What the steps of a call do to a farmer's rewards (ref-farming/src/farmer.rs, internals.rs): a claim
-- adds to them, a withdrawal takes from them, and staking leaves them alone.
use nft_farming.Prelude.{
  ℕ, ◌+◌, ◌≤◌, ◌≡◌, List, [], ◌∷◌, arith, some, if◌then◌else◌, inl, inr, Option-cases,
}
use nft_farming.Checked.{Holds, Holds->>=, Holds-all, Holds-map, checked_add, checked_sub}
use nft_farming.Text.{text_eq, text_eq_iff}
use nft_farming.Map.{Map, lookup, lookup-insert, lookup-remove, unwrap_or, lookup-insert_self}
use nft_farming.Utils.{SeedId, FarmId, AccountId, ContractNftTokenId}
use nft_farming.Farm.{Farm}
use nft_farming.Farmer.{
  Farmer, UserRps, add_reward, sub_reward, set_rps, remove_rps, add_seed, sub_seed, sub_nft,
}
use nft_farming.Contract.{Contract, Env, rps_of}
use nft_farming.Claims.{
  get_farmer, get_seed_wrapped, claim_user_reward_from_farm, claim_from_farms,
  internal_claim_user_reward_by_seed_id,
}
use nft_farming.Stakes.{remove_all_rps}

-- The balance of a reward token.
abbrev pub balance : AccountId → Farmer → ℕ
balance token farmer = unwrap_or (lookup token farmer.rewards) 0

-- The first farmer has no more of any reward.
abbrev pub Poorer : Farmer → Farmer → Type 0
Poorer f g = (token : AccountId) → balance token f ≤ balance token g

pub Poorer-refl : (f : Farmer) → Poorer f f
Poorer-refl f token = omega arith

pub Poorer-trans : (f g h : Farmer) → Poorer f g → Poorer g h → Poorer f h
Poorer-trans f g h p q token = omega (arith, p token, q token)

pub same-Poorer : (f g : Farmer) → f.rewards ≡ g.rewards → Poorer f g
same-Poorer f g e token = rw e (omega arith)

pub add_reward-balance :
    (t token : AccountId) (amount : ℕ) (farmer : Farmer)
    → Holds
        (λ f. balance t f ≡ balance t farmer + (if text_eq token t then amount else 0))
        (add_reward token amount farmer)
unfolding add_reward checked_add
add_reward-balance t token amount farmer = grind (arith, lookup-insert, text_eq_iff token t)

pub sub_reward-balance :
    (t token : AccountId) (amount : ℕ) (farmer : Farmer)
    → Holds
        (λ (out : Farmer × ℕ).
          balance t out.0 + (if text_eq token t then out.1 else 0) ≡ balance t farmer)
        (sub_reward token amount farmer)
unfolding sub_reward checked_sub
sub_reward-balance t token amount farmer =
    grind (arith, lookup-insert, lookup-remove, text_eq_iff token t)

pub sub_reward-Poorer :
    (token : AccountId) (amount : ℕ) (farmer : Farmer)
    → Holds (λ (out : Farmer × ℕ). Poorer out.0 farmer) (sub_reward token amount farmer)
sub_reward-Poorer token amount farmer = Holds-all _ (sub_reward token amount farmer) λ t.
    Holds-map _ (λ (out : Farmer × ℕ). balance t out.0 ≤ balance t farmer) _
      (sub_reward-balance t token amount farmer) λ out e. omega (arith, e)

pub add_seed-rewards :
    (seed_id : SeedId) (amount : ℕ) (farmer : Farmer)
    → Holds (λ (f : Farmer). f.rewards ≡ farmer.rewards) (add_seed seed_id amount farmer)
unfolding add_seed checked_add
add_seed-rewards seed_id amount farmer = ground arith

pub sub_seed-rewards :
    (seed_id : SeedId) (amount : ℕ) (farmer : Farmer)
    → Holds (λ (out : Farmer × ℕ). out.0.rewards ≡ farmer.rewards) (sub_seed seed_id amount farmer)
unfolding sub_seed checked_sub
sub_seed-rewards seed_id amount farmer = ground arith

pub sub_nft-rewards :
    (seed_id : SeedId) (token : ContractNftTokenId) (farmer : Farmer)
    → (sub_nft seed_id token farmer).0.rewards ≡ farmer.rewards
unfolding sub_nft
sub_nft-rewards seed_id token farmer = ground arith

pub set_rps-rewards :
    (farm_id : FarmId) (value : ℕ) (farmer : Farmer) (rps : UserRps)
    → Holds
        (λ (out : Farmer × UserRps). out.0.rewards ≡ farmer.rewards)
        (set_rps farm_id value farmer rps)
unfolding set_rps checked_add
set_rps-rewards farm_id value farmer rps = ground arith

pub remove_rps-rewards :
    (farm_id : FarmId) (farmer : Farmer) (rps : UserRps)
    → Holds
        (λ (out : Farmer × UserRps). out.0.rewards ≡ farmer.rewards)
        (remove_rps farm_id farmer rps)
unfolding remove_rps checked_sub
remove_rps-rewards farm_id farmer rps = ground arith

pub remove_all_rps-rewards :
    (ids : List FarmId) (farmer : Farmer) (rps : UserRps)
    → Holds
        (λ (out : Farmer × UserRps). out.0.rewards ≡ farmer.rewards)
        (remove_all_rps ids farmer rps)
unfolding remove_all_rps
remove_all_rps-rewards [] farmer rps = ground arith
remove_all_rps-rewards (farm_id ∷ rest) farmer rps =
    grind (arith, remove_rps-rewards, remove_all_rps-rewards rest)

module _ (t : AccountId) where
  claim_user_reward_from_farm-grows :
      (now total_seeds : ℕ) (farm : Farm) (farmer : Farmer) (rps : UserRps)
      → Holds
          (λ (out : Farm × Farmer × UserRps). balance t farmer ≤ balance t out.1)
          (claim_user_reward_from_farm now total_seeds farm farmer rps)
  unfolding claim_user_reward_from_farm
  claim_user_reward_from_farm-grows now total_seeds farm farmer rps =
      grind (arith, set_rps-rewards, add_reward-balance t)

  claim_from_farms-grows :
      (now amount : ℕ) (ids : List FarmId) (farms : Map Farm) (farmer : Farmer) (rps : UserRps)
      → Holds
          (λ (out : Map Farm × Farmer × UserRps). balance t farmer ≤ balance t out.1)
          (claim_from_farms now amount ids farms farmer rps)
  unfolding claim_from_farms
  claim_from_farms-grows now amount [] farms farmer rps = omega arith
  claim_from_farms-grows now amount (farm_id ∷ rest) farms farmer rps =
      grind (arith, claim_user_reward_from_farm-grows, claim_from_farms-grows now amount rest)

-- A claim by seed finds the farmer, and leaves one that is no poorer.
pub claim_by_seed-Poorer :
    (env : Env) (sender_id : AccountId) (seed_id : SeedId) (c : Contract) (farmer : Farmer)
    → lookup sender_id c.farmers ≡ some farmer
    → Holds
        (λ c'.
          (farmer' : Farmer) × (lookup sender_id c'.farmers ≡ some farmer') × Poorer farmer farmer')
        (internal_claim_user_reward_by_seed_id env sender_id seed_id c)
unfolding internal_claim_user_reward_by_seed_id get_farmer get_seed_wrapped
claim_by_seed-Poorer env sender_id seed_id c farmer known =
    rw known (elim (Option-cases (lookup seed_id c.seeds)) [
      | inl missing ↦ rw missing (farmer, known, Poorer-refl farmer)
      | inr (seed, found) ↦ rw found (
          Holds->>= _ _
            (claim_from_farms env.block_timestamp seed.amount seed.farms c.farms farmer
              (rps_of sender_id c))
            _
            (Holds-all (λ t (out : Map Farm × Farmer × UserRps). balance t farmer ≤ balance t out.1)
              _
              λ t.
                claim_from_farms-grows t env.block_timestamp seed.amount seed.farms c.farms farmer
                  (rps_of sender_id c))
            λ out p. (out.1, lookup-insert_self sender_id out.1 c.farmers, p))
    ])
