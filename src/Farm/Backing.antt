-- ===== src/Farm/Backing.antt =====
-- What a farm owes its stakers is backed by its unclaimed reward (ref-farming/src/farm.rs,
-- `distribute` and `claim_user_reward`). A staker is an amount of seed and the rps of the last claim.
use native.Mathlib.Nat.{mul-div-le}
use nft_farming.Prelude.{ℕ, ◌+◌, ◌-◌, ◌*◌, ◌/◌, ◌≤◌, ◌≡◌, List, [], ◌∷◌, ◌++◌, arith}
use nft_farming.Checked.{ok, checked_add, checked_sub}
use nft_farming.Farm.{Farm, denom, pay_out, end_if_empty}
use nft_farming.Farm.Schedule.{scheduled_reward}
use nft_farming.Farm.Accounts.{IsBalanced, distributed}

abbrev pub Stakers : Type 0
Stakers = List (ℕ × ℕ)

-- The seed that the stakers hold together.
unfoldable pub stake : Stakers → ℕ
stake [] = 0
stake ((seeds, user_rps) ∷ rest) = seeds + stake rest

-- What the stakers may claim together at `rps`, times the denominator.
unfoldable pub entitlement : ℕ → Stakers → ℕ
entitlement rps [] = 0
entitlement rps ((seeds, user_rps) ∷ rest) = seeds * (rps - user_rps) + entitlement rps rest

-- The unclaimed reward covers what the stakers may claim.
abbrev pub IsBacked : Farm → Stakers → Type 0
IsBacked farm stakers =
    entitlement farm.last_distribution.rps stakers ≤ farm.last_distribution.unclaimed * denom

mul_mono : (s a b : ℕ) → a ≤ b → s * a ≤ s * b
mul_mono s a b h = grind arith

share_grow : (s rps d u : ℕ) → s * (rps + d - u) ≤ s * (rps - u) + s * d
share_grow s rps d u = omega (arith, mul_mono s (rps + d - u) (rps - u + d) (omega arith))

entitlement_grow :
    (rps d : ℕ) (stakers : Stakers)
    → entitlement (rps + d) stakers ≤ entitlement rps stakers + stake stakers * d
unfolding entitlement stake
entitlement_grow rps d [] = omega arith
entitlement_grow rps d ((seeds, user_rps) ∷ rest) =
    omega (arith, entitlement_grow rps d rest, share_grow seeds rps d user_rps)

entitlement-le : (rps : ℕ) (stakers : Stakers) → entitlement rps stakers ≤ stake stakers * rps
unfolding entitlement stake
entitlement-le rps [] = omega arith
entitlement-le rps ((seeds, user_rps) ∷ rest) = grind (arith, entitlement-le rps rest)

pub entitlement-append :
    (rps : ℕ) (xs ys : Stakers)
    → entitlement rps (xs ++ ys) ≡ entitlement rps xs + entitlement rps ys
unfolding entitlement
entitlement-append rps [] ys = omega arith
entitlement-append rps ((seeds, user_rps) ∷ xs) ys = omega (arith, entitlement-append rps xs ys)

-- A distribution over the whole stake keeps the stakers backed.
pub distributed-IsBacked :
    (now : ℕ) (farm : Farm) (stakers : Stakers)
    → IsBacked farm stakers
    → IsBacked (distributed now (stake stakers) farm) stakers
unfolding end_if_empty
distributed-IsBacked now farm stakers b =
    let s : ℕ = scheduled_reward now farm.terms farm.last_distribution in
    let d : ℕ = s * denom / stake stakers in
    ground (
      arith,
      entitlement_grow farm.last_distribution.rps d stakers,
      entitlement-le 0 stakers,
      mul-div-le (s * denom) (stake stakers),
    )

-- What one staker may claim.
abbrev pub share : ℕ → ℕ → ℕ → ℕ
share seeds rps user_rps = seeds * (rps - user_rps) / denom

no_gain : (s rps : ℕ) → s * (rps - rps) ≡ 0
no_gain s rps = grind arith

-- The share of one staker among others is covered, and with it taken out the rest stays backed.
pub share_covered :
    (rps unclaimed seeds user_rps : ℕ) (before later : Stakers)
    → entitlement rps (before ++ (seeds, user_rps) ∷ later) ≤ unclaimed * denom
    → (share seeds rps user_rps ≤ unclaimed)
      × (entitlement rps (before ++ (seeds, rps) ∷ later)
          ≤ (unclaimed - share seeds rps user_rps) * denom)
unfolding entitlement
share_covered rps unclaimed seeds user_rps before later b =
    let e : ℕ = seeds * (rps - user_rps) in
    omega (
      arith,
      entitlement-append rps before ((seeds, user_rps) ∷ later),
      entitlement-append rps before ((seeds, rps) ∷ later),
      no_gain seeds rps,
      b,
    )

-- Paying a covered share out succeeds.
pub pay_out_lem :
    (claimed : ℕ) (farm : Farm)
    → IsBalanced farm
    → claimed ≤ farm.last_distribution.unclaimed
    → pay_out claimed farm
      ≡ ok (record farm {
        last_distribution = record (farm.last_distribution) {
          unclaimed = farm.last_distribution.unclaimed - claimed;
        };
        amount_of_claimed = farm.amount_of_claimed + claimed;
      })
unfolding pay_out checked_add checked_sub
pay_out_lem claimed farm b h = ground arith
