-- ===== src/Stakes/Sum.antt =====
-- The seed that all farmers hold together, and the amount that the seed records.
use nft_farming.Prelude.{ℕ, ◌+◌, ◌-◌, ◌≤◌, ◌≡◌, Option, none, some, [], ◌∷◌, arith, if◌then◌else◌}
use nft_farming.Checked.{Holds, checked_add, checked_sub}
use nft_farming.Text.{text_eq, text_eq_iff, text_eq_refl}
use nft_farming.Map.{
  Map, IsMap, lookup, insert, remove, remove_absent, lookup-insert, lookup-remove,
}
use nft_farming.Utils.{SeedId, AccountId}
use nft_farming.FarmSeed.{FarmSeed}
use nft_farming.Farmer.{Farmer, seed_balance, add_seed, sub_seed}
use nft_farming.Contract.{Contract}

-- What an account holds of a seed.
abbrev pub held : SeedId → Option Farmer → ℕ
held seed_id none = 0
held seed_id (some farmer) = seed_balance seed_id farmer

unfoldable pub staked : SeedId → Map Farmer → ℕ
staked seed_id [] = 0
staked seed_id ((account, farmer) ∷ m) = seed_balance seed_id farmer + staked seed_id m

abbrev pub recorded : Option FarmSeed → ℕ
recorded none = 0
recorded (some seed) = seed.amount

-- The amount that a seed records is what all farmers hold of it.
abbrev pub IsStaked : SeedId → Contract → Type 0
IsStaked seed_id c = staked seed_id c.farmers ≡ recorded (lookup seed_id c.seeds)

pub staked-insert :
    (seed_id : SeedId) (account : AccountId) (farmer : Farmer) (m : Map Farmer)
    → staked seed_id (insert account farmer m) + held seed_id (lookup account m)
      ≡ staked seed_id m + seed_balance seed_id farmer
unfolding staked insert lookup
staked-insert seed_id account farmer [] = omega arith
staked-insert seed_id account farmer ((k, f) ∷ m) =
    ground (arith, staked-insert seed_id account farmer m)

pub staked-remove :
    (seed_id : SeedId) (account : AccountId) (m : Map Farmer)
    → IsMap m
    → staked seed_id (remove account m) + held seed_id (lookup account m) ≡ staked seed_id m
unfolding staked remove lookup
staked-remove seed_id account [] h = omega arith
staked-remove seed_id account ((k, f) ∷ m) h =
    ground (arith, text_eq_iff k account, staked-remove seed_id account m h.1, remove_absent k m)

-- No account holds more than is staked.
pub held-le :
    (seed_id : SeedId) (account : AccountId) (m : Map Farmer)
    → held seed_id (lookup account m) ≤ staked seed_id m
unfolding staked lookup
held-le seed_id account [] = omega arith
held-le seed_id account ((k, f) ∷ m) = ground (arith, held-le seed_id account m)

-- Staking and unstaking change the balance of their seed alone.
pub add_seed-balance :
    (seed_id s : SeedId) (amount : ℕ) (farmer : Farmer)
    → Holds
        (λ f. seed_balance s f ≡ seed_balance s farmer + (if text_eq seed_id s then amount else 0))
        (add_seed seed_id amount farmer)
unfolding add_seed checked_add
add_seed-balance seed_id s amount farmer = ground (
  arith,
  text_eq_iff seed_id s,
  lookup-insert seed_id s (amount + seed_balance seed_id farmer) farmer.seeds,
)

pub sub_seed-balance :
    (seed_id s : SeedId) (amount : ℕ) (farmer : Farmer)
    → Holds
        (λ (out : Farmer × ℕ).
          (seed_balance s out.0 + (if text_eq seed_id s then amount else 0) ≡ seed_balance s farmer)
          × (out.1 ≡ seed_balance seed_id out.0))
        (sub_seed seed_id amount farmer)
unfolding sub_seed checked_sub
sub_seed-balance seed_id s amount farmer = ground (
  arith,
  text_eq_iff seed_id s,
  lookup-insert seed_id s (seed_balance seed_id farmer - amount) farmer.seeds,
  lookup-insert seed_id seed_id (seed_balance seed_id farmer - amount) farmer.seeds,
  text_eq_refl seed_id,
  lookup-remove seed_id seed_id farmer.seeds,
  lookup-remove seed_id s farmer.seeds,
)
