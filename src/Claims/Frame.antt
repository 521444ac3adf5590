-- ===== src/Claims/Frame.antt =====
-- What a claim leaves alone (ref-farming/src/internals.rs): a farmer's stake, NFTs and deposit.
use nft_farming.Prelude.{ℕ, ◌≡◌, refl, List, [], ◌∷◌, arith}
use nft_farming.Checked.{Holds, checked_add, checked_sub}
use nft_farming.Map.{Map}
use nft_farming.Utils.{FarmId, AccountId}
use nft_farming.Farm.{Farm}
use nft_farming.Farmer.{Farmer, UserRps, add_reward, sub_reward, set_rps, remove_rps}
use nft_farming.Claims.{claim_user_reward_from_farm, claim_from_farms}

-- Two states of a farmer that differ in rewards and rps only.
pub record SameStake (f g : Farmer) : Type 0 where
  pub id : g.farmer_id ≡ f.farmer_id
  pub amount : g.amount ≡ f.amount
  pub seeds : g.seeds ≡ f.seeds
  pub nft_seeds : g.nft_seeds ≡ f.nft_seeds

pub SameStake-refl : (f : Farmer) → SameStake f f
SameStake-refl f = record { id = refl; amount = refl; seeds = refl; nft_seeds = refl }

pub SameStake-trans : {f g h : Farmer} → SameStake f g → SameStake g h → SameStake f h
SameStake-trans p q = record {
  id = cc (p.id, q.id);
  amount = cc (p.amount, q.amount);
  seeds = cc (p.seeds, q.seeds);
  nft_seeds = cc (p.nft_seeds, q.nft_seeds);
}

pub add_reward-SameStake :
    (token : AccountId) (amount : ℕ) (farmer : Farmer)
    → Holds (SameStake farmer) (add_reward token amount farmer)
unfolding add_reward checked_add
add_reward-SameStake token amount farmer = ground arith

pub sub_reward-SameStake :
    (token : AccountId) (amount : ℕ) (farmer : Farmer)
    → Holds (λ (out : Farmer × ℕ). SameStake farmer out.0) (sub_reward token amount farmer)
unfolding sub_reward checked_sub
sub_reward-SameStake token amount farmer = ground arith

pub set_rps-SameStake :
    (farm_id : FarmId) (value : ℕ) (farmer : Farmer) (rps : UserRps)
    → Holds (λ (out : Farmer × UserRps). SameStake farmer out.0) (set_rps farm_id value farmer rps)
unfolding set_rps checked_add
set_rps-SameStake farm_id value farmer rps = ground arith

pub remove_rps-SameStake :
    (farm_id : FarmId) (farmer : Farmer) (rps : UserRps)
    → Holds (λ (out : Farmer × UserRps). SameStake farmer out.0) (remove_rps farm_id farmer rps)
unfolding remove_rps checked_sub
remove_rps-SameStake farm_id farmer rps = ground arith

abbrev pub FarmClaim : Type 0
FarmClaim = Farm × Farmer × UserRps

pub claim_user_reward_from_farm-SameStake :
    (now total_seeds : ℕ) (farm : Farm) (farmer : Farmer) (rps : UserRps)
    → Holds
        (λ (out : FarmClaim). SameStake farmer out.1)
        (claim_user_reward_from_farm now total_seeds farm farmer rps)
unfolding claim_user_reward_from_farm
claim_user_reward_from_farm-SameStake now total_seeds farm farmer rps =
    grind (arith, set_rps-SameStake, add_reward-SameStake)

pub claim_from_farms-SameStake :
    (now amount : ℕ) (ids : List FarmId) (farms : Map Farm) (farmer : Farmer) (rps : UserRps)
    → Holds
        (λ (out : Map Farm × Farmer × UserRps). SameStake farmer out.1)
        (claim_from_farms now amount ids farms farmer rps)
unfolding claim_from_farms
claim_from_farms-SameStake now amount [] farms farmer rps = SameStake-refl farmer
claim_from_farms-SameStake now amount (farm_id ∷ rest) farms farmer rps =
    grind (arith, claim_user_reward_from_farm-SameStake, claim_from_farms-SameStake now amount rest)
