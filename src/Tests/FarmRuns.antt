-- ===== src/Tests/FarmRuns.antt =====
-- Runs of one farm: two minutes after its start, and later.
use nft_farming.Prelude.{ℕ, ◌*◌, ◌≡◌, ◌≢◌, refl, ◌↔◌, Bool, true, false, none, [], ◌∷◌, ◌⊎◌, arith}
use nft_farming.Checked.{
  ok, err, overflow, division_by_zero, ◌>>=◌, Holds, Succeeds, fit, checked_add, checked_sub,
  checked_mul, checked_div,
}
use nft_farming.Utils.{nanos, to_sec, to_nano}
use nft_farming.Farm.{
  Farm, cleared, next_distribution, last_rounds, release, next_rps, try_distribute, distribute,
  keep_distribution, accept_distribution, end_if_empty, owed, pay_out, claim_user_reward,
}
use nft_farming.Farm.Lifecycle.{
  add_reward, can_be_removed, move_to_clear, view_farmer_unclaimed_reward,
}
use nft_farming.Farm.Schedule.{
  IsUsable, scheduled, next_distribution_lem, ceil_div, scheduled_round,
}
use nft_farming.Farm.Accounts.{IsBalanced, IsLive}
use nft_farming.Farm.Balance.{move_to_clear-IsBalanced}
use nft_farming.Farm.Backing.{Stakers, stake, entitlement, IsBacked}
use nft_farming.Farm.Solvency.{IsPaid, claim_user_reward-Succeeds}
use nft_farming.Farm.Again.{left_after, distribute-IsLive, distribute-twice, distribute-IsBacked}
use nft_farming.Farm.Ends.{HasEnded, distribute-HasEnded}
use nft_farming.Farm.Agreement.{view-eq-claim, refuses-iff-removable}
use nft_farming.Farm.Panics.{claim_user_reward-zero_interval, claim_user_reward-reset}
use nft_farming.Tests.Data.{farm, terms}

-- two minutes and ten seconds after the start
abbrev now : ℕ
now = 230 * nanos

abbrev later : ℕ
later = 500 * nanos

terms-IsUsable : IsUsable terms
terms-IsUsable = record { interval = omega arith; reward = omega arith; small = omega arith }

farm-IsBalanced : IsBalanced farm
farm-IsBalanced = record {
  balance = refl;
  beneficiary = omega arith;
  fits = omega arith;
  paid_for = omega arith;
  over = λ h. cc;
}

farm-IsLive : IsLive now farm
farm-IsLive = record {
  usable = terms-IsUsable;
  balanced = farm-IsBalanced;
  clock = omega arith;
  past = omega arith;
}

-- bob among the stakers, after alice
abbrev stakers : Stakers
stakers = (10, 0) ∷ (30, 0) ∷ []

stakers-IsBacked : IsBacked farm stakers
unfolding entitlement
stakers-IsBacked = omega arith

claimed_amount : (claim_user_reward now 0 30 40 farm >>= λ out. ok out.2) ≡ ok 7
unfolding claim_user_reward distribute try_distribute next_distribution release last_rounds next_rps
    accept_distribution keep_distribution end_if_empty owed pay_out fit checked_add checked_sub
    checked_mul checked_div to_sec to_nano
claimed_amount = refl

claim_user_reward-Succeeds_example :
    Succeeds
      (IsPaid 30 0 ((10, 0) ∷ []) [])
      (claim_user_reward now 0 30 (stake ((10, 0) ∷ (30, 0) ∷ [])) farm)
claim_user_reward-Succeeds_example =
    claim_user_reward-Succeeds now 30 0 ((10, 0) ∷ []) [] farm farm-IsLive stakers-IsBacked
      (omega arith) (omega arith)

next_distribution_lem_example :
    next_distribution now 40 terms farm.last_distribution
    ≡ ok (scheduled now 40 terms farm.last_distribution)
next_distribution_lem_example =
    next_distribution_lem now 40 terms farm.last_distribution terms-IsUsable
      (record { clock = omega arith; started = omega arith; past = omega arith }) (omega arith)
      (omega arith)

distribute-twice_example :
    left_after (distribute now 40 farm >>= λ f. distribute later 0 f)
    ≡ left_after (distribute later 40 farm)
unfolding to_nano
distribute-twice_example =
    distribute-twice now later 40 0 40 farm farm-IsLive refl (omega arith) (omega arith)
      (omega arith)

distribute-IsLive_example : Succeeds (IsLive later) (distribute now 40 farm)
distribute-IsLive_example =
    distribute-IsLive now later 40 farm farm-IsLive (omega arith) (omega arith)

distribute-IsBacked_example :
    Succeeds (λ f. IsBacked f stakers) (distribute now (stake stakers) farm)
distribute-IsBacked_example = distribute-IsBacked now farm stakers farm-IsLive stakers-IsBacked

move_to_clear-IsBalanced_example :
    Holds
      (λ (out : Farm × Bool).
        IsBalanced out.0
        × ((out.1 ≡ false)
            ⊎ (out.0.status ≡ cleared) × (out.0.amount_of_reward ≡ out.0.amount_of_claimed)))
      (move_to_clear later 40 farm)
move_to_clear-IsBalanced_example = move_to_clear-IsBalanced later 40 farm farm-IsBalanced

refuses-iff-removable_example :
    (add_reward now 20 farm ≡ ok (farm, none)) ↔ (can_be_removed now 40 farm ≡ ok true)
refuses-iff-removable_example = refuses-iff-removable now 20 40 farm farm-IsLive (λ e. cc)

-- the same farm with sessions of no length
abbrev zero_farm : Farm
zero_farm = record farm { terms = record terms { session_interval = 0 } }

claim_user_reward-zero_interval_example :
    claim_user_reward now 0 30 40 zero_farm ≡ err division_by_zero
unfolding to_nano
claim_user_reward-zero_interval_example =
    claim_user_reward-zero_interval now 0 30 40 zero_farm refl refl (omega arith) (omega arith)

view-eq-claim_example : view_farmer_unclaimed_reward now 0 30 40 farm ≡ ok 7
unfolding claim_user_reward distribute try_distribute next_distribution release last_rounds next_rps
    accept_distribution keep_distribution end_if_empty owed pay_out fit checked_add checked_sub
    checked_mul checked_div to_sec to_nano
view-eq-claim_example = view-eq-claim now 0 30 40 farm farm-IsLive (omega arith) (omega arith) refl

round_ends : farm.last_distribution.rr ≢ scheduled_round now farm.terms farm.last_distribution
unfolding ceil_div
round_ends = ground arith

claim_user_reward-reset_example : claim_user_reward now 1 0 0 farm ≡ err overflow
unfolding to_nano
claim_user_reward-reset_example =
    claim_user_reward-reset now 1 0 farm farm-IsLive refl (omega arith) round_ends (omega arith)

distribute-HasEnded_example : Succeeds (HasEnded farm) (distribute (700 * nanos) 40 farm)
unfolding ceil_div to_nano
distribute-HasEnded_example =
    distribute-HasEnded (700 * nanos) 40 farm
      (record {
        usable = terms-IsUsable;
        balanced = farm-IsBalanced;
        clock = omega arith;
        past = omega arith;
      })
      refl (omega arith)
