-- ===== src/Farm/Agreement.antt =====
-- Methods of a farm that have to agree with one another (ref-farming/src/farm.rs): the view of an
-- unclaimed reward with the claim, and the refusal of reward with the test for removal.
use native.Mathlib.Nat.{zero-div}
use nft_farming.Prelude.{
  ℕ, ◌*◌, ◌/◌, ◌<◌, ◌≡◌, ◌≢◌, ◌↔◌, true, false, none, some, arith, ltb, ◌==◌, if◌then◌else◌,
}
use nft_farming.Checked.{ok, ◌>>=◌, >>=-eq-ok, checked_add}
use nft_farming.Utils.{to_nano}
use nft_farming.Farm.{
  Farm, cleared, denom, is_running, end_if_empty, owed, pay_out, claim_user_reward,
}
use nft_farming.Farm.Lifecycle.{
  rps_after, view_farmer_unclaimed_reward, add_reward, top_up, grow, start, can_be_removed,
}
use nft_farming.Farm.Accounts.{IsLive, after, distributed, distribute_lem, try_distribute_lem}
use nft_farming.Farm.Rounds.{ceil_div-zero}

-- With seed staked, the rps that a view computes with is the rps that a claim computes with.
rps_agree :
    (now total_seeds : ℕ) (farm : Farm)
    → IsLive now farm
    → 0 < total_seeds
    → rps_after farm (
        if is_running farm.status
        then (if ltb now (to_nano farm.terms.start_at)
            then none
            else some (after now total_seeds farm))
        else none)
      ≡ (distributed now total_seeds farm).last_distribution.rps
unfolding end_if_empty
rps_agree now total_seeds farm l pos = ground (
  arith,
  ceil_div-zero farm.last_distribution.undistributed farm.terms.reward_per_session,
  l.usable,
  no_share total_seeds,
)
  where
    no_share : (n : ℕ) → 0 * denom / n ≡ 0
    no_share n = zero-div n

amount_of_claim :
    (claimed : ℕ) (farm : Farm) {out : Farm × ℕ × ℕ}
    → (do farm' ← pay_out claimed farm; ok (farm', farm'.last_distribution.rps, claimed)) ≡ ok out
    → out.2 ≡ claimed
amount_of_claim claimed farm h = let (farm', _, e) = >>=-eq-ok (pay_out claimed farm) _ h in cc

-- For a staker of a live farm, where a claim does not panic, the view of the unclaimed reward
-- shows just the amount that the claim pays at that time.
pub view-eq-claim :
    (now user_rps user_seeds total_seeds : ℕ) (farm : Farm) {out : Farm × ℕ × ℕ}
    → IsLive now farm
    → 0 < total_seeds
    → 0 < user_seeds
    → claim_user_reward now user_rps user_seeds total_seeds farm ≡ ok out
    → view_farmer_unclaimed_reward now user_rps user_seeds total_seeds farm ≡ ok out.2
unfolding claim_user_reward view_farmer_unclaimed_reward
view-eq-claim now user_rps user_seeds total_seeds farm l total_pos user_pos h =
    let rps = (distributed now total_seeds farm).last_distribution.rps in
    let h₁ = rw (distribute_lem now total_seeds farm l) at h in
    let (claimed, e, h₂) = >>=-eq-ok (owed user_seeds rps user_rps) _ h₁ in
    let staked : (total_seeds == 0) ≡ false = ground arith in
    let holds : (user_seeds == 0) ≡ false = ground arith in
    rw (
      staked,
      holds,
      try_distribute_lem now total_seeds farm l,
      rps_agree now total_seeds farm l total_pos,
      e,
      amount_of_claim claimed (distributed now total_seeds farm) h₂,
    )

-- A live farm that has not been cleared refuses an amount of reward, and stays as it is, just when
-- it can be removed, whatever the amount and whatever is staked.
pub refuses-iff-removable :
    (now amount total_seeds : ℕ) (farm : Farm)
    → IsLive now farm
    → farm.status ≢ cleared
    → (add_reward now amount farm ≡ ok (farm, none))
      ↔ (can_be_removed now total_seeds farm ≡ ok true)
unfolding add_reward can_be_removed top_up grow start checked_add
refuses-iff-removable now amount total_seeds farm l open_farm =
    ground (arith, try_distribute_lem now denom farm l, try_distribute_lem now total_seeds farm l)
