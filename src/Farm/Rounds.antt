-- ===== src/Farm/Rounds.antt =====
-- How often a farm is distributed does not matter to what it releases (ref-farming/src/farm.rs,
-- `try_distribute` and `distribute`).
use native.Mathlib.Nat.{div-add-mod', mod-lt, le-div_iff_mul-le, div-mul-le_self}
use Prim.Native.Nat.{min}
use nft_farming.Prelude.{
  ℕ, ◌+◌, ◌-◌, ◌*◌, ◌/◌, ◌≤◌, ◌<◌, ◌≡◌, ◌≢◌, arith, ◌==◌, inl, inr, Bool-cases,
}
use nft_farming.Checked.{u32_mod}
use nft_farming.Utils.{to_nano, nanos}
use nft_farming.Farm.{FarmTerms, Farm, running, end_if_empty}
use nft_farming.Farm.Schedule.{
  IsUsable, sessions, scheduled_reward, scheduled_round, ceil_div, le-ceil_div,
}
use nft_farming.Farm.Accounts.{IsLive, distributed}
use nft_farming.Farm.Solvency.{distributed-IsBalanced}

-- A round that does not advance releases nothing.
pub ceil_div-zero : (a b : ℕ) → 0 < b → ceil_div a b ≡ 0 → a ≡ 0
unfolding ceil_div
ceil_div-zero a b pos h = ground (arith, div-add-mod' a b, mod-lt a pos)

-- What is left after a distribution of a running farm that has started.
pub undistributed_after :
    (now total_seeds : ℕ) (farm : Farm)
    → IsUsable farm.terms
    → farm.last_distribution.rr ≤ sessions now farm.terms
    → farm.status ≡ running
    → to_nano farm.terms.start_at ≤ now
    → (distributed now total_seeds farm).last_distribution.undistributed
      ≡ farm.last_distribution.undistributed
        - scheduled_reward now farm.terms farm.last_distribution
unfolding end_if_empty
undistributed_after now total_seeds farm u past run started =
    ground (arith, ceil_div-zero farm.last_distribution.undistributed farm.terms.reward_per_session)

pub round_after :
    (now total_seeds : ℕ) (farm : Farm)
    → farm.status ≡ running
    → to_nano farm.terms.start_at ≤ now
    → (distributed now total_seeds farm).last_distribution.rr
      ≡ scheduled_round now farm.terms farm.last_distribution
unfolding end_if_empty
round_after now total_seeds farm run started = ground arith

-- Two releases add up to one.
release_twice :
    (u r n m p : ℕ)
    → 0 < p
    → r ≤ n
    → n ≤ m
    → (let first = min u ((n - r) * p) in
        let left = u - first in
        first + min left ((m - min n (r + ceil_div u p)) * p) ≡ min u ((m - r) * p))
release_twice u r n m p pos past order = ground (
  arith,
  le-ceil_div u p (n - r) pos,
  split_product (m - n) (n - r) p,
  more_sessions (n - r) (m - r) p,
)
  where
    split_product : (a b p : ℕ) → (a + b) * p ≡ a * p + b * p
    split_product a b p = omega arith

    more_sessions : (a b p : ℕ) → a ≤ b → a * p ≤ b * p
    more_sessions a b p h = grind arith

div_mono : (a b k : ℕ) → 0 < k → a ≤ b → a / k ≤ b / k
div_mono a b k pos h =
    (le-div_iff_mul-le {k = k} {x = a / k} {y = b} pos).1 (omega (arith, div-mul-le_self a k))

pub sessions_mono :
    (now later : ℕ) (terms : FarmTerms)
    → 0 < terms.session_interval
    → now ≤ later
    → sessions now terms ≤ sessions later terms
sessions_mono now later terms pos h =
    div_mono (now / nanos - terms.start_at) (later / nanos - terms.start_at) terms.session_interval
      pos (omega arith)

terms_after :
    (now total_seeds : ℕ) (farm : Farm) → (distributed now total_seeds farm).terms ≡ farm.terms
unfolding end_if_empty
terms_after now total_seeds farm = ground arith

round-le :
    (now total_seeds : ℕ) (farm : Farm)
    → farm.last_distribution.rr ≤ sessions now farm.terms
    → (distributed now total_seeds farm).last_distribution.rr ≤ sessions now farm.terms
unfolding end_if_empty
round-le now total_seeds farm past = ground arith

left-le :
    (now total_seeds : ℕ) (farm : Farm)
    → (distributed now total_seeds farm).last_distribution.undistributed
      ≤ farm.last_distribution.undistributed
unfolding end_if_empty
left-le now total_seeds farm = ground arith

still_running :
    (now total_seeds : ℕ) (farm : Farm)
    → farm.status ≡ running
    → (distributed now total_seeds farm).last_distribution.undistributed ≢ 0
    → (distributed now total_seeds farm).status ≡ running
unfolding end_if_empty
still_running now total_seeds farm run left = ground arith

-- A live farm stays live, as the clock advances, whether or not it is distributed now.
pub distributed-IsLive :
    (now later total_seeds : ℕ) (farm : Farm)
    → IsLive now farm
    → now ≤ later
    → later / nanos < u32_mod
    → IsLive later (distributed now total_seeds farm)
distributed-IsLive now later total_seeds farm l order clock =
    let same = terms_after now total_seeds farm in
    record {
      usable = rw same l.usable;
      balanced = distributed-IsBalanced now total_seeds farm l;
      clock = clock;
      past = rw same (
          omega (
            arith,
            round-le now total_seeds farm l.past,
            sessions_mono now later farm.terms l.usable.interval order,
          ));
    }

-- Distributing a running farm now and again later leaves just what distributing it only later does.
pub distributed_twice :
    (now later total_seeds total_seeds' total_seeds'' : ℕ) (farm : Farm)
    → IsUsable farm.terms
    → farm.last_distribution.rr ≤ sessions now farm.terms
    → farm.status ≡ running
    → to_nano farm.terms.start_at ≤ now
    → now ≤ later
    → (distributed later total_seeds'
        (distributed now total_seeds farm)).last_distribution.undistributed
      ≡ (distributed later total_seeds'' farm).last_distribution.undistributed
distributed_twice now later total_seeds total_seeds' total_seeds'' farm u past run started order =
    let f = distributed now total_seeds farm in
    let last = farm.last_distribution in
    let left₁ = undistributed_after now total_seeds farm u past run started in
    let mono = sessions_mono now later farm.terms u.interval order in
    let both =
      undistributed_after later total_seeds'' farm u (omega (arith, past, mono)) run
        (omega arith) in
    let sum =
      release_twice last.undistributed last.rr (sessions now farm.terms) (sessions later farm.terms)
        farm.terms.reward_per_session u.reward past mono in
    elim (Bool-cases (f.last_distribution.undistributed == 0)) [
      | inl dry ↦
          let none_left : f.last_distribution.undistributed ≡ 0 = ground arith in
          omega (arith, left₁, both, sum, none_left, left-le later total_seeds' f)
      | inr more ↦
          let some_left : f.last_distribution.undistributed ≢ 0 = ground arith in
          let same = terms_after now total_seeds farm in
          let left₂ =
            undistributed_after later total_seeds' f (rw same u)
              (rw same (omega (arith, round-le now total_seeds farm past, mono)))
              (still_running now total_seeds farm run some_left) (rw same (omega arith)) in
          rw (left₂, same, round_after now total_seeds farm run started, left₁)
            (omega (arith, both, sum))
    ]
