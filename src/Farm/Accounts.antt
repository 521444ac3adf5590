-- ===== src/Farm/Accounts.antt =====
-- The accounts of a farm (ref-farming/src/farm.rs): where every token of the reward is.
use native.Mathlib.Nat.{div-le_self}
use nft_farming.Prelude.{
  not, ◌&&◌, ℕ, ◌+◌, ◌*◌, ◌/◌, ◌≤◌, ◌<◌, ◌≡◌, refl, Bool, true, false, none, some, arith, ltb, ◌==◌,
  if◌then◌else◌, inl, inr, Bool-cases,
}
use nft_farming.Checked.{
  Result, ok, err, ◌>>=◌, Holds, Holds->>=, u32_mod, u128_mod, u256_mod, checked_add, checked_mul,
  checked_sub, checked_div,
}
use nft_farming.Utils.{nanos, to_nano}
use nft_farming.Farm.{
  FarmTerms, FarmRewardDistribution, Farm, FarmStatus, created, running, ended, cleared, denom,
  next_rps, release, next_distribution, is_running, try_distribute, keep_distribution, end_if_empty,
  accept_distribution, distribute,
}
use nft_farming.Farm.Schedule.{
  IsUsable, sessions, scheduled, scheduled_reward, next_distribution_lem,
}

abbrev pub is_over : FarmStatus → Bool
is_over created = false
is_over running = false
is_over ended = true
is_over cleared = true

-- Every token of the reward is undistributed, unclaimed or claimed; what the beneficiary has counts
-- as claimed; the whole fits 128 bits; the reward per seed is paid for by what was distributed; and
-- a farm that is over has nothing left to distribute.
pub record IsBalanced (farm : Farm) : Type 0 where
  pub balance :
      farm.amount_of_reward
      ≡ farm.last_distribution.undistributed + farm.last_distribution.unclaimed
        + farm.amount_of_claimed
  pub beneficiary : farm.amount_of_beneficiary ≤ farm.amount_of_claimed
  pub fits : farm.amount_of_reward < u128_mod
  pub paid_for :
      farm.last_distribution.rps + farm.last_distribution.undistributed * denom
      ≤ farm.amount_of_reward * denom
  pub over : is_over farm.status ≡ true → farm.last_distribution.undistributed ≡ 0

-- Usable terms, balanced accounts, a clock that has not run past 32 bits of seconds, and a last
-- distribution that is not from the future.
pub record IsLive (now : ℕ) (farm : Farm) : Type 0 where
  pub usable : IsUsable farm.terms
  pub balanced : IsBalanced farm
  pub clock : now / nanos < u32_mod
  pub past : farm.last_distribution.rr ≤ sessions now farm.terms

-- What a distribution makes of a farm, apart from the code.
abbrev pub after : ℕ → ℕ → Farm → FarmRewardDistribution
after now total_seeds farm = scheduled now total_seeds farm.terms farm.last_distribution

room :
    (farm : Farm)
    → IsBalanced farm
    → farm.last_distribution.rps + farm.last_distribution.undistributed * denom < u256_mod
room farm b = omega (arith, b.paid_for, b.fits)

pub try_distribute_lem :
    (now total_seeds : ℕ) (farm : Farm)
    → IsLive now farm
    → try_distribute now total_seeds farm
      ≡ ok (
          if is_running farm.status
          then (if ltb now (to_nano farm.terms.start_at)
              then none
              else some (after now total_seeds farm))
          else none)
unfolding try_distribute to_nano
try_distribute_lem now total_seeds farm l =
    elim (Bool-cases (ltb now (to_nano farm.terms.start_at))) [
      | inl early ↦ ground arith
      | inr late ↦ ground (
        arith,
        next_distribution_lem now total_seeds farm.terms farm.last_distribution l.usable
            (record { clock = l.clock; started = ground arith; past = l.past })
            (omega (arith, l.balanced.balance, l.balanced.fits)) (room farm l.balanced),
      )
    ]

-- A distribution moves reward from undistributed to unclaimed, and the reward per seed rises by no
-- more than that pays for.
after-balance :
    (now total_seeds : ℕ) (farm : Farm)
    → IsBalanced farm
    → (let dis = after now total_seeds farm in
        (dis.undistributed + dis.unclaimed
          ≡ farm.last_distribution.undistributed + farm.last_distribution.unclaimed)
        × (dis.rps + dis.undistributed * denom ≤ farm.amount_of_reward * denom))
after-balance now total_seeds farm b =
    let s : ℕ = scheduled_reward now farm.terms farm.last_distribution in
    ground (arith, b.paid_for, div-le_self (s * denom) total_seeds)

-- The farm after a distribution, apart from the code.
abbrev pub kept : ℕ → FarmRewardDistribution → Farm → Farm
kept total_seeds dis farm =
    if total_seeds == 0
    then record farm {
      last_distribution = record dis { unclaimed = 0 };
      amount_of_claimed = farm.amount_of_claimed + dis.unclaimed;
      amount_of_beneficiary = farm.amount_of_beneficiary + dis.unclaimed;
    }
    else record farm { last_distribution = dis }

abbrev pub distributed : ℕ → ℕ → Farm → Farm
distributed now total_seeds farm =
    let dis = after now total_seeds farm in
    if is_running farm.status && not (ltb now (to_nano farm.terms.start_at))
    then end_if_empty
        (if farm.last_distribution.rr == dis.rr then farm else kept total_seeds dis farm)
    else farm

pub distribute_lem :
    (now total_seeds : ℕ) (farm : Farm)
    → IsLive now farm
    → distribute now total_seeds farm ≡ ok (distributed now total_seeds farm)
unfolding distribute accept_distribution keep_distribution checked_add
distribute_lem now total_seeds farm l =
    rw (try_distribute_lem now total_seeds farm l)
      (ground (arith, after-balance now total_seeds farm l.balanced, l.balanced.balance))

-- Without any premise on the clock or the terms: what comes out of a distribution is balanced.
next_rps-le :
    (total_seeds rps reward : ℕ)
    → Holds (λ r. r ≤ rps + reward * denom) (next_rps total_seeds rps reward)
unfolding next_rps checked_add checked_mul checked_div
next_rps-le total_seeds rps reward = ground (arith, div-le_self (reward * denom) total_seeds)

abbrev pub IsPaidFor : ℕ → FarmRewardDistribution → FarmRewardDistribution → Type 0
IsPaidFor paid last dis =
    (dis.undistributed + dis.unclaimed ≡ last.undistributed + last.unclaimed)
    × (dis.rps + dis.undistributed * denom ≤ paid * denom)

next_distribution_keeps :
    (now total_seeds : ℕ) (terms : FarmTerms) (last : FarmRewardDistribution) (paid : ℕ)
    → last.rps + last.undistributed * denom ≤ paid * denom
    → Holds (IsPaidFor paid last) (next_distribution now total_seeds terms last)
unfolding next_distribution checked_add checked_sub
next_distribution_keeps now total_seeds terms last paid h = go (release now terms last)
  where
    go :
        (r : Result (ℕ × ℕ))
        → Holds (IsPaidFor paid last) (
            r >>= λ a. do
              unclaimed ← checked_add u128_mod last.unclaimed a.1
              undistributed ← checked_sub last.undistributed a.1
              rps ← next_rps total_seeds last.rps a.1
              ok (record {
                undistributed = undistributed;
                unclaimed = unclaimed;
                rps = rps;
                rr = a.0;
              }))
    go (err e) = tt
    go (ok (rr, reward)) = ground (arith, next_rps-le total_seeds last.rps reward)

is_running-eq : (status : FarmStatus) → is_running status ≡ true → status ≡ running
is_running-eq status h = ground arith

try_distribute_keeps :
    (now total_seeds : ℕ) (farm : Farm)
    → IsBalanced farm
    → Holds
        (λ o.
          (dis : FarmRewardDistribution)
          → o ≡ some dis
          → (farm.status ≡ running) × IsPaidFor farm.amount_of_reward farm.last_distribution dis)
        (try_distribute now total_seeds farm)
unfolding try_distribute
try_distribute_keeps now total_seeds farm b = elim (Bool-cases (is_running farm.status)) [
  | inl run ↦ elim (Bool-cases (ltb now (to_nano farm.terms.start_at))) [
    | inl early ↦ rw (run, early) (λ dis e. absurd (cc))
    | inr late ↦
        rw (run, late)
          (go (is_running-eq farm.status run)
            (next_distribution now total_seeds farm.terms farm.last_distribution)
            (next_distribution_keeps now total_seeds farm.terms farm.last_distribution
              farm.amount_of_reward b.paid_for))
  ]
  | inr idle ↦ rw idle (λ dis e. absurd (cc))
]
  where
    go :
        farm.status ≡ running
        → (r : Result FarmRewardDistribution)
        → Holds (IsPaidFor farm.amount_of_reward farm.last_distribution) r
        → Holds
            (λ o.
              (dis : FarmRewardDistribution)
              → o ≡ some dis
              → (farm.status ≡ running)
                × IsPaidFor farm.amount_of_reward farm.last_distribution dis)
            (r >>= λ dis. ok (some dis))
    go run (err e) h = tt
    go run (ok dis) h = λ d e. (run, ground (arith, h))

keep_distribution-IsBalanced :
    (total_seeds : ℕ) (dis : FarmRewardDistribution) (farm : Farm)
    → IsBalanced farm
    → farm.status ≡ running
    → IsPaidFor farm.amount_of_reward farm.last_distribution dis
    → Holds IsBalanced (accept_distribution total_seeds (some dis) farm)
unfolding accept_distribution keep_distribution end_if_empty checked_add
keep_distribution-IsBalanced total_seeds dis farm b run p = ground arith

-- Whatever the time, the terms and the stake: a distribution that does not panic keeps the accounts.
pub distribute-IsBalanced :
    (now total_seeds : ℕ) (farm : Farm)
    → IsBalanced farm
    → Holds IsBalanced (distribute now total_seeds farm)
unfolding distribute
distribute-IsBalanced now total_seeds farm b =
    Holds->>= _ IsBalanced (try_distribute now total_seeds farm) _
      (try_distribute_keeps now total_seeds farm b)
      (elim [
        | none ↦ λ h. unfold accept_distribution in b
        | some dis ↦
            λ h. keep_distribution-IsBalanced total_seeds dis farm b (h dis refl).0 (h dis refl).1
      ])
