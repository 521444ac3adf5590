-- ===== src/Farm/Panics.antt =====
-- When a claim panics (ref-farming/src/farm.rs, `try_distribute` and `claim_user_reward`).
use nft_farming.Prelude.{ℕ, ◌/◌, ◌≤◌, ◌<◌, ◌≡◌, ◌≢◌, arith}
use nft_farming.Checked.{err, overflow, division_by_zero, checked_sub, checked_div, u32_mod}
use nft_farming.Utils.{to_nano, to_sec, nanos}
use nft_farming.Farm.{
  Farm, running, release, next_distribution, try_distribute, distribute, end_if_empty, owed,
  claim_user_reward,
}
use nft_farming.Farm.Schedule.{scheduled_round}
use nft_farming.Farm.Accounts.{IsLive, distribute_lem}

-- With sessions of no length every claim from a running farm that has started divides by zero,
-- while the clock is within 32 bits of seconds.
pub claim_user_reward-zero_interval :
    (now user_rps user_seeds total_seeds : ℕ) (farm : Farm)
    → farm.status ≡ running
    → farm.terms.session_interval ≡ 0
    → to_nano farm.terms.start_at ≤ now
    → now / nanos < u32_mod
    → claim_user_reward now user_rps user_seeds total_seeds farm ≡ err division_by_zero
unfolding claim_user_reward distribute try_distribute next_distribution release to_nano to_sec
    checked_sub checked_div
claim_user_reward-zero_interval now user_rps user_seeds total_seeds farm run zero started clock =
    ground arith

-- When a round of a live, running farm ends while nothing is staked, a claim by an account that
-- has seen a reward per seed other than 0 panics.
pub claim_user_reward-reset :
    (now user_rps user_seeds : ℕ) (farm : Farm)
    → IsLive now farm
    → farm.status ≡ running
    → to_nano farm.terms.start_at ≤ now
    → farm.last_distribution.rr ≢ scheduled_round now farm.terms farm.last_distribution
    → 0 < user_rps
    → claim_user_reward now user_rps user_seeds 0 farm ≡ err overflow
unfolding claim_user_reward owed checked_sub end_if_empty
claim_user_reward-reset now user_rps user_seeds farm l run started advanced seen =
    rw (distribute_lem now 0 farm l) (ground arith)
