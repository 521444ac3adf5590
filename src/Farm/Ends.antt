-- ===== src/Farm/Ends.antt =====
-- A farm comes to its end (ref-farming/src/farm.rs, `distribute`, `can_be_removed`): once
-- enough sessions have passed, whatever is staked, all reward has been released.
use native.Mathlib.Nat.{div-add-mod', mod-lt, le-div_iff_mul-le}
use nft_farming.Prelude.{ℕ, ◌+◌, ◌-◌, ◌*◌, ◌/◌, ◌≤◌, ◌<◌, ◌≡◌, true, arith}
use nft_farming.Checked.{ok, Succeeds}
use nft_farming.Utils.{to_nano, nanos}
use nft_farming.Farm.{Farm, running, ended, distribute, end_if_empty}
use nft_farming.Farm.Lifecycle.{can_be_removed}
use nft_farming.Farm.Schedule.{sessions, ceil_div, scheduled_reward}
use nft_farming.Farm.Accounts.{IsLive, distributed, distribute_lem, try_distribute_lem}
use nft_farming.Farm.Solvency.{distributed-IsBalanced}
use nft_farming.Farm.Rounds.{undistributed_after}

-- As many sessions as it takes pay for all that is left.
ceil_div-enough : (a b : ℕ) → 0 < b → a ≤ ceil_div a b * b
unfolding ceil_div
ceil_div-enough a b pos = grind (arith, div-add-mod' a b, mod-lt a pos)

mul_mono_left : (m n b : ℕ) → m ≤ n → m * b ≤ n * b
mul_mono_left m n b h = grind arith

-- The last session of a farm, counted from its start.
abbrev pub last_session : Farm → ℕ
last_session farm =
    farm.last_distribution.rr
    + ceil_div farm.last_distribution.undistributed farm.terms.reward_per_session

-- The farm is over, with nothing left to release, and what was not released before is now unclaimed
-- or the beneficiary's.
abbrev pub HasEnded : Farm → Farm → Type 0
HasEnded farm farm' =
    (farm'.status ≡ ended)
    × (farm'.last_distribution.undistributed ≡ 0)
    × (farm'.amount_of_reward ≡ farm'.last_distribution.unclaimed + farm'.amount_of_claimed)
    × (farm'.amount_of_reward ≡ farm.amount_of_reward)

-- The time of that session.
abbrev pub end_time : Farm → ℕ
end_time farm = to_nano (farm.terms.start_at + last_session farm * farm.terms.session_interval)

last_session-le :
    (now : ℕ) (farm : Farm)
    → 0 < farm.terms.session_interval
    → end_time farm ≤ now
    → last_session farm ≤ sessions now farm.terms
unfolding to_nano
last_session-le now farm pos late =
    let passed : last_session farm * farm.terms.session_interval
        ≤ now / nanos - farm.terms.start_at =
      omega (arith, late) in
    (le-div_iff_mul-le {k = farm.terms.session_interval} {x = last_session farm}
        {y = now / nanos - farm.terms.start_at} pos).1
      passed

all_released :
    (now : ℕ) (farm : Farm)
    → IsLive now farm
    → last_session farm ≤ sessions now farm.terms
    → scheduled_reward now farm.terms farm.last_distribution ≡ farm.last_distribution.undistributed
all_released now farm l enough =
    let last = farm.last_distribution in
    let r : ℕ = farm.terms.reward_per_session in
    let rounds : ℕ = sessions now farm.terms - last.rr in
    omega (
      arith,
      ceil_div-enough last.undistributed r l.usable.reward,
      mul_mono_left (ceil_div last.undistributed r) rounds r (omega (arith, enough)),
    )

status_lem :
    (now total_seeds : ℕ) (farm : Farm)
    → farm.status ≡ running
    → to_nano farm.terms.start_at ≤ now
    → (distributed now total_seeds farm).last_distribution.undistributed ≡ 0
    → (distributed now total_seeds farm).status ≡ ended
unfolding end_if_empty
status_lem now total_seeds farm run started h = ground arith

distributed-reward :
    (now total_seeds : ℕ) (farm : Farm)
    → (distributed now total_seeds farm).amount_of_reward ≡ farm.amount_of_reward
unfolding end_if_empty
distributed-reward now total_seeds farm = ground arith

distributed-HasEnded :
    (now total_seeds : ℕ) (farm : Farm)
    → IsLive now farm
    → farm.status ≡ running
    → to_nano farm.terms.start_at ≤ now
    → last_session farm ≤ sessions now farm.terms
    → HasEnded farm (distributed now total_seeds farm)
distributed-HasEnded now total_seeds farm l run started enough =
    let none_left : (distributed now total_seeds farm).last_distribution.undistributed ≡ 0 = omega (
      arith,
      undistributed_after now total_seeds farm l.usable l.past run started,
      all_released now farm l enough,
    ) in
    let b = distributed-IsBalanced now total_seeds farm l in
    (
      status_lem now total_seeds farm run started none_left,
      none_left,
      omega (arith, b.balance, none_left),
      distributed-reward now total_seeds farm,
    )

-- It can then be removed, whatever has not been claimed.
pub can_be_removed-true :
    (now total_seeds : ℕ) (farm : Farm)
    → IsLive now farm
    → farm.status ≡ running
    → to_nano farm.terms.start_at ≤ now
    → last_session farm ≤ sessions now farm.terms
    → can_be_removed now total_seeds farm ≡ ok true
unfolding can_be_removed
can_be_removed-true now total_seeds farm l run started enough =
    ground (
      arith,
      run,
      started,
      try_distribute_lem now total_seeds farm l,
      all_released now farm l enough,
    )

-- A live, running farm comes to its end: from the session in which its reward runs out on,
-- whatever is staked, a distribution does not panic and leaves the farm ended with nothing
-- undistributed and all its reward unclaimed or claimed.
pub distribute-HasEnded :
    (now total_seeds : ℕ) (farm : Farm)
    → IsLive now farm
    → farm.status ≡ running
    → end_time farm ≤ now
    → Succeeds (HasEnded farm) (distribute now total_seeds farm)
unfolding to_nano
distribute-HasEnded now total_seeds farm l run late =
    let enough = last_session-le now farm l.usable.interval late in
    let started : to_nano farm.terms.start_at ≤ now = omega (arith, late) in
    rw (distribute_lem now total_seeds farm l)
      (distributed-HasEnded now total_seeds farm l run started enough)
