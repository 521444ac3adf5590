-- ===== src/Farm/Schedule.antt =====
-- The schedule that a farm promises (ref-farming/src/farm.rs, `try_distribute`), stated apart from
-- the code: after each session the reward of a session is released, until nothing is left.
use native.Mathlib.Nat.{
  div-le_self, le-div_iff_mul-le, div-lt_iff_lt-mul, div-add-mod', mod-lt, mod-eq_of_lt,
}
use Prim.Native.Nat.{min}
use nft_farming.Prelude.{ℕ, ◌+◌, ◌-◌, ◌*◌, ◌/◌, ◌%◌, ◌≤◌, ◌<◌, ◌≡◌, arith, ◌==◌, if◌then◌else◌}
use nft_farming.Checked.{
  ok, u32_mod, u128_mod, u256_mod, checked_add, checked_mul, checked_sub, checked_div,
}
use nft_farming.Utils.{nanos, to_sec}
use nft_farming.Farm.{
  FarmTerms, FarmRewardDistribution, denom, last_rounds, release, next_rps, next_distribution,
}

-- Terms under which the code's arithmetic stays in range.
pub record IsUsable (terms : FarmTerms) : Type 0 where
  pub interval : 0 < terms.session_interval
  pub reward : 0 < terms.reward_per_session
  pub small : terms.reward_per_session * u32_mod ≤ u128_mod

-- The sessions that have passed at `now`.
abbrev pub sessions : ℕ → FarmTerms → ℕ
sessions now terms = (now / nanos - terms.start_at) / terms.session_interval

-- The clock has not run past 32 bits of seconds, the farm has started, and the last distribution
-- is not from the future.
pub record IsOnClock (now : ℕ) (terms : FarmTerms) (last : FarmRewardDistribution) : Type 0 where
  pub clock : now / nanos < u32_mod
  pub started : terms.start_at ≤ now / nanos
  pub past : last.rr ≤ sessions now terms

unfoldable pub ceil_div : ℕ → ℕ → ℕ
ceil_div a b = if a % b == 0 then a / b else a / b + 1

-- What is released at `now` beyond the last distribution, and the round that this reaches.
abbrev pub scheduled_reward : ℕ → FarmTerms → FarmRewardDistribution → ℕ
scheduled_reward now terms last =
    min last.undistributed ((sessions now terms - last.rr) * terms.reward_per_session)

abbrev pub scheduled_round : ℕ → FarmTerms → FarmRewardDistribution → ℕ
scheduled_round now terms last =
    min (sessions now terms) (last.rr + ceil_div last.undistributed terms.reward_per_session)

-- Less than `n` sessions' reward runs out within `n` sessions, and no less does it take.
pub ceil_div-le : (a b n : ℕ) → 0 < b → a < n * b → ceil_div a b ≤ n
unfolding ceil_div
ceil_div-le a b n pos h = ground (arith, (div-lt_iff_lt-mul {k = b} {x = a} {y = n} pos).1 h)

pub le-ceil_div : (a b n : ℕ) → 0 < b → n * b ≤ a → n ≤ ceil_div a b
unfolding ceil_div
le-ceil_div a b n pos h =
    ground (arith, div-add-mod' a b, (le-div_iff_mul-le {k = b} {x = n} {y = a} pos).1 h)

last_rounds_lem :
    (r rounds : ℕ) (last : FarmRewardDistribution)
    → 0 < r
    → last.undistributed < rounds * r
    → rounds * r < u128_mod
    → last.rr + rounds < u32_mod
    → last_rounds r last ≡ ok (last.rr + ceil_div last.undistributed r, last.undistributed)
unfolding last_rounds ceil_div checked_div checked_add checked_mul
last_rounds_lem r rounds last pos less fits clock = ground (
  arith,
  (div-lt_iff_lt-mul {k = r} {x = last.undistributed} {y = rounds} pos).1 less,
  div-add-mod' last.undistributed r,
  mod-lt last.undistributed pos,
  mod-eq_of_lt {n = last.undistributed / r} {m = u32_mod},
)

-- A number of sessions fits 32 bits, and so its reward fits 128 bits.
sessions-lt :
    (now : ℕ) (terms : FarmTerms)
    → now / nanos < u32_mod
    → 0 < terms.session_interval
    → sessions now terms < u32_mod
sessions-lt now terms clock pos =
    omega (arith, div-le_self (now / nanos - terms.start_at) terms.session_interval)

mul_small :
    (rounds r : ℕ) → r * u32_mod ≤ u128_mod → rounds < u32_mod → 0 < r → rounds * r < u128_mod
mul_small rounds r small less pos = grind arith

release_lem :
    (now : ℕ) (terms : FarmTerms) (last : FarmRewardDistribution)
    → IsUsable terms
    → IsOnClock now terms last
    → release now terms last ≡ ok (scheduled_round now terms last, scheduled_reward now terms last)
unfolding release to_sec checked_sub checked_div checked_mul
release_lem now terms last u c =
    let rounds : ℕ = sessions now terms - last.rr in
    ground (
      arith,
      sessions-lt now terms c.clock u.interval,
      last_rounds_lem terms.reward_per_session rounds last,
      ceil_div-le last.undistributed terms.reward_per_session rounds u.reward,
      le-ceil_div last.undistributed terms.reward_per_session rounds u.reward,
      mul_small rounds terms.reward_per_session u.small,
    )

abbrev pub scheduled_rps : ℕ → ℕ → FarmTerms → FarmRewardDistribution → ℕ
scheduled_rps now total_seeds terms last =
    if total_seeds == 0 then 0 else last.rps + scheduled_reward now terms last * denom / total_seeds

-- What the schedule makes of a distribution.
abbrev pub scheduled : ℕ → ℕ → FarmTerms → FarmRewardDistribution → FarmRewardDistribution
scheduled now total_seeds terms last = record {
  undistributed = last.undistributed - scheduled_reward now terms last;
  unclaimed = last.unclaimed + scheduled_reward now terms last;
  rps = scheduled_rps now total_seeds terms last;
  rr = scheduled_round now terms last;
}

next_rps_lem :
    (total_seeds rps reward : ℕ)
    → reward < u128_mod
    → rps + reward * denom < u256_mod
    → next_rps total_seeds rps reward
      ≡ ok (if total_seeds == 0 then 0 else rps + reward * denom / total_seeds)
unfolding next_rps checked_mul checked_div checked_add
next_rps_lem total_seeds rps reward small fits =
    ground (arith, div-le_self (reward * denom) total_seeds)

-- For usable terms, a clock within 32 bits of seconds that is past the start and the last round,
-- and sums that fit their words, the code's distribution is the one of the schedule, without a
-- panic: the reward of the sessions that have passed is released until nothing is left, and the
-- round is capped by the one in which the reward runs out.
pub next_distribution_lem :
    (now total_seeds : ℕ) (terms : FarmTerms) (last : FarmRewardDistribution)
    → IsUsable terms
    → IsOnClock now terms last
    → last.unclaimed + last.undistributed < u128_mod
    → last.rps + last.undistributed * denom < u256_mod
    → next_distribution now total_seeds terms last ≡ ok (scheduled now total_seeds terms last)
unfolding next_distribution checked_add checked_sub
next_distribution_lem now total_seeds terms last u c fits room =
    rw (release_lem now terms last u c) (
      ground (
        arith,
        next_rps_lem total_seeds last.rps (scheduled_reward now terms last) (omega arith)
            (grind arith),
      ))
