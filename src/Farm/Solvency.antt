-- ===== src/Farm/Solvency.antt =====
-- A claim of a staker succeeds, and what the others may claim stays backed (ref-farming/src/farm.rs,
-- `claim_user_reward`): the assertion with `ERR500` never fails.
use nft_farming.Prelude.{ℕ, ◌*◌, ◌≤◌, ◌<◌, ◌≡◌, refl, [], ◌∷◌, ◌++◌, arith}
use nft_farming.Checked.{ok, ◌>>=◌, Succeeds, u128_mod, checked_mul, checked_sub, fit}
use nft_farming.Farm.{Farm, denom, owed, pay_out, claim_user_reward, end_if_empty}
use nft_farming.Farm.Accounts.{
  IsBalanced, IsLive, distributed, distribute_lem, distribute-IsBalanced,
}
use nft_farming.Farm.Backing.{
  Stakers, stake, entitlement, entitlement-append, IsBacked, distributed-IsBacked, share,
  share_covered, pay_out_lem,
}

pub distributed-IsBalanced :
    (now total_seeds : ℕ) (farm : Farm)
    → IsLive now farm
    → IsBalanced (distributed now total_seeds farm)
distributed-IsBalanced now total_seeds farm l =
    rw (distribute_lem now total_seeds farm l) at
      (distribute-IsBalanced now total_seeds farm l.balanced)

-- With seed staked the reward per seed never falls.
pub rps_mono :
    (now total_seeds : ℕ) (farm : Farm)
    → 0 < total_seeds
    → farm.last_distribution.rps ≤ (distributed now total_seeds farm).last_distribution.rps
unfolding end_if_empty
rps_mono now total_seeds farm pos = ground arith

stake-pos :
    (seeds user_rps : ℕ) (before later : Stakers)
    → 0 < seeds
    → 0 < stake (before ++ (seeds, user_rps) ∷ later)
unfolding stake
stake-pos seeds user_rps [] later pos = omega arith
stake-pos seeds user_rps ((s, u) ∷ before) later pos =
    omega (arith, stake-pos seeds user_rps before later pos)

-- What is owed to one staker is computed with no panic.
owed_lem :
    (seeds rps user_rps unclaimed : ℕ) (before later : Stakers)
    → user_rps ≤ rps
    → unclaimed < u128_mod
    → entitlement rps (before ++ (seeds, user_rps) ∷ later) ≤ unclaimed * denom
    → owed seeds rps user_rps ≡ ok (share seeds rps user_rps)
unfolding owed checked_sub checked_mul fit entitlement
owed_lem seeds rps user_rps unclaimed before later below fits b =
    ground (arith, entitlement-append rps before ((seeds, user_rps) ∷ later))

abbrev pub IsPaid : ℕ → ℕ → Stakers → Stakers → Farm × ℕ × ℕ → Type 0
IsPaid seeds user_rps before later (farm, new_user_rps, claimed) =
    IsBalanced farm
    × IsBacked farm (before ++ (seeds, new_user_rps) ∷ later)
    × (new_user_rps ≡ farm.last_distribution.rps)
    × (claimed ≡ share seeds new_user_rps user_rps)

pay_out-IsPaid :
    (seeds user_rps : ℕ) (before later : Stakers) (farm : Farm)
    → IsBalanced farm
    → IsBacked farm (before ++ (seeds, user_rps) ∷ later)
    → user_rps ≤ farm.last_distribution.rps
    → Succeeds (IsPaid seeds user_rps before later) (do
      claimed ← owed seeds farm.last_distribution.rps user_rps
      farm' ← pay_out claimed farm
      ok (farm', farm'.last_distribution.rps, claimed))
pay_out-IsPaid seeds user_rps before later farm b backed below =
    let last = farm.last_distribution in
    let fits : last.unclaimed < u128_mod = omega (arith, b.balance, b.fits) in
    let covered = share_covered last.rps last.unclaimed seeds user_rps before later backed in
    rw
      (
        owed_lem seeds last.rps user_rps last.unclaimed before later below fits backed,
        pay_out_lem (share seeds last.rps user_rps) farm b covered.0,
      )
      (ground (arith, covered, b), covered.1, refl, refl)

-- For a live farm whose unclaimed reward covers what its stakers may claim, a staker with some of
-- the seed, whose rps is not past the farm's, can claim: the claim does not panic, it pays the
-- share that has accrued, the farm's accounts stay balanced, and what all stakers may then claim
-- stays covered.
pub claim_user_reward-Succeeds :
    (now seeds user_rps : ℕ) (before later : Stakers) (farm : Farm)
    → IsLive now farm
    → IsBacked farm (before ++ (seeds, user_rps) ∷ later)
    → 0 < seeds
    → user_rps ≤ farm.last_distribution.rps
    → Succeeds
        (IsPaid seeds user_rps before later)
        (claim_user_reward now user_rps seeds (stake (before ++ (seeds, user_rps) ∷ later)) farm)
unfolding claim_user_reward
claim_user_reward-Succeeds now seeds user_rps before later farm l backed pos below =
    let stakers = before ++ (seeds, user_rps) ∷ later in
    rw (distribute_lem now (stake stakers) farm l) (
      pay_out-IsPaid seeds user_rps before later (distributed now (stake stakers) farm)
        (distributed-IsBalanced now (stake stakers) farm l)
        (distributed-IsBacked now farm stakers backed)
        (omega (
          arith,
          below,
          rps_mono now (stake stakers) farm (stake-pos seeds user_rps before later pos),
        )))
