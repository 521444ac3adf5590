-- ===== src/Farmer/Footprint.antt =====
-- How far the operations let the storage of a farmer grow (ref-farming/src/farmer.rs, internals.rs,
-- storage_impl.rs, `assert_storage_usage`).
use nft_farming.Prelude.{ℕ, ◌+◌, ◌*◌, ◌≤◌, ◌<◌, ◌≡◌, refl, List, [], ◌∷◌, arith, length}
use nft_farming.Checked.{ok, Holds, checked_add, checked_mul, u128_mod}
use nft_farming.Text.{Text}
use nft_farming.Map.{Map, remove, length-insert}
use nft_farming.Utils.{SeedId, FarmId, AccountId, max_account_length}
use nft_farming.Farm.{Farm}
use nft_farming.Farmer.{
  Farmer, UserRps, set_rps, add_reward, add_seed, farmer_bytes, storage_usage, min_farmer_length,
}
use nft_farming.Claims.{claim_user_reward_from_farm, claim_from_farms}
use nft_farming.Claims.Frame.{FarmClaim}

-- `g` has the deposit of `f`, at most `n` more rewards and rps, and at most `k` more seeds.
pub record Grown (n k : ℕ) (f g : Farmer) : Type 0 where
  pub amount : g.amount ≡ f.amount
  pub rewards : length g.rewards ≤ length f.rewards + n
  pub seeds : length g.seeds ≤ length f.seeds + k
  pub rps_count : g.rps_count ≤ f.rps_count + n

pub Grown-refl : (f : Farmer) → Grown 0 0 f f
Grown-refl f = record {
  amount = refl;
  rewards = omega arith;
  seeds = omega arith;
  rps_count = omega arith;
}

pub Grown-trans :
    {n k m j : ℕ} {f g h : Farmer} → Grown n k f g → Grown m j g h → Grown (n + m) (k + j) f h
Grown-trans p q = record {
  amount = ground (arith, p.amount, q.amount);
  rewards = omega (arith, p.rewards, q.rewards);
  seeds = omega (arith, p.seeds, q.seeds);
  rps_count = omega (arith, p.rps_count, q.rps_count);
}

length-remove-le : {V : Type 0} (k : Text) (m : Map V) → length (remove k m) ≤ length m
unfolding remove
length-remove-le k [] = omega arith
length-remove-le k ((j, v) ∷ m) = ground (arith, length-remove-le k m)

set_rps-Grown :
    (farm_id : FarmId) (value : ℕ) (farmer : Farmer) (rps : UserRps)
    → Holds
        (λ (out : Farmer × UserRps).
          (out.0.amount ≡ farmer.amount)
          × (out.0.rewards ≡ farmer.rewards)
          × (out.0.seeds ≡ farmer.seeds)
          × (out.0.rps_count ≤ farmer.rps_count + 1))
        (set_rps farm_id value farmer rps)
unfolding set_rps checked_add
set_rps-Grown farm_id value farmer rps = ground arith

add_reward-Grown :
    (token : AccountId) (amount : ℕ) (farmer : Farmer)
    → Holds
        (λ (f : Farmer).
          (f.amount ≡ farmer.amount)
          × (length f.rewards ≤ length farmer.rewards + 1)
          × (f.seeds ≡ farmer.seeds)
          × (f.rps_count ≡ farmer.rps_count))
        (add_reward token amount farmer)
unfolding add_reward checked_add
add_reward-Grown token amount farmer = grind (arith, length-insert)

pub add_seed-Grown :
    (seed_id : SeedId) (amount : ℕ) (farmer : Farmer)
    → Holds (Grown 0 1 farmer) (add_seed seed_id amount farmer)
unfolding add_seed checked_add
add_seed-Grown seed_id amount farmer = grind (arith, length-insert)

claim_user_reward_from_farm-Grown :
    (now amount : ℕ) (farm : Farm) (farmer : Farmer) (rps : UserRps)
    → Holds
        (λ (out : FarmClaim). Grown 1 0 farmer out.1)
        (claim_user_reward_from_farm now amount farm farmer rps)
unfolding claim_user_reward_from_farm
claim_user_reward_from_farm-Grown now amount farm farmer rps =
    grind (arith, set_rps-Grown, add_reward-Grown)

pub claim_from_farms-Grown :
    (now amount : ℕ) (ids : List FarmId) (farms : Map Farm) (farmer : Farmer) (rps : UserRps)
    → Holds
        (λ (out : Map Farm × Farmer × UserRps). Grown (length ids) 0 farmer out.1)
        (claim_from_farms now amount ids farms farmer rps)
unfolding claim_from_farms
claim_from_farms-Grown now amount [] farms farmer rps = Grown-refl farmer
claim_from_farms-Grown now amount (id ∷ ids) farms farmer rps =
    grind (arith, claim_user_reward_from_farm-Grown, claim_from_farms-Grown now amount ids)

-- Taking a reward out.
pub remove_reward-Grown :
    (token : AccountId) (farmer : Farmer)
    → Grown 0 0 farmer (record farmer { rewards = remove token farmer.rewards })
remove_reward-Grown token farmer = record {
  amount = refl;
  rewards = omega (arith, length-remove-le token farmer.rewards);
  seeds = omega arith;
  rps_count = omega arith;
}

-- The bytes of a farmer with so many more rewards, rps and seeds.
abbrev pub most_bytes : ℕ → ℕ → Farmer → ℕ
most_bytes n k farmer =
    min_farmer_length
    + (length farmer.rewards + n) * (4 + max_account_length + 16)
    + (length farmer.seeds + k) * (4 + max_account_length + 16)
    + (farmer.rps_count + n) * (4 + 1 + 2 * max_account_length + 32)

-- The account's deposit pays for them.
pub record IsCovered (cost n k : ℕ) (farmer : Farmer) : Type 0 where
  pub deposited : 0 < farmer.amount
  pub small : farmer.amount < u128_mod
  pub pays : most_bytes n k farmer * cost ≤ farmer.amount

bytes-le : (n k : ℕ) (f g : Farmer) → Grown n k f g → farmer_bytes g ≤ most_bytes n k f
unfolding farmer_bytes
bytes-le n k f g h = omega (arith, h.rewards, h.seeds, h.rps_count)

cost-le : (a b cost : ℕ) → a ≤ b → a * cost ≤ b * cost
cost-le a b cost h = grind arith

pub storage_usage-covered :
    (cost n k : ℕ) (f g : Farmer)
    → IsCovered cost n k f
    → Grown n k f g
    → (storage_usage cost g ≡ ok (farmer_bytes g * cost))
      × (farmer_bytes g * cost ≤ g.amount)
      × (0 < g.amount)
unfolding storage_usage checked_mul
storage_usage-covered cost n k f g covered grown =
    let le = cost-le (farmer_bytes g) (most_bytes n k f) cost (bytes-le n k f g grown) in
    let pays = covered.pays in
    let small = covered.small in
    let pos = covered.deposited in
    let same = grown.amount in
    (ground (arith, le, pays, small), ground (arith, le, pays, same), ground (arith, pos, same))
