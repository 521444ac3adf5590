-- ===== src/Farm/Lifecycle.antt =====
-- ref-farming/src/farm.rs: the methods that add reward, look ahead, and end a farm.
use nft_farming.Prelude.{ℕ, Bool, true, false, Option, none, some, ltb, ◌==◌, if◌then◌else◌}
use nft_farming.Checked.{Result, ok, ◌>>=◌, checked_add, u128_mod}
use nft_farming.Utils.{to_sec}
use nft_farming.Farm.{
  FarmRewardDistribution, Farm, created, running, ended, cleared, denom, is_running, try_distribute,
  distribute, owed,
}

-- Both sums that a deposit of reward changes; returns what is undistributed.
unfoldable pub grow : ℕ → Farm → Result (Farm × Option ℕ)
grow amount farm = do
  amount_of_reward ← checked_add u128_mod farm.amount_of_reward amount
  undistributed ← checked_add u128_mod farm.last_distribution.undistributed amount
  ok (
    record farm {
      last_distribution = record (farm.last_distribution) { undistributed = undistributed };
      amount_of_reward = amount_of_reward;
    },
    some undistributed,
  )

-- A farm without start time starts with its first deposit.
unfoldable pub start : ℕ → Farm → Farm
start now farm = record farm {
  status = running;
  terms =
      if farm.terms.start_at == 0
      then record (farm.terms) { start_at = to_sec now }
      else farm.terms;
}

-- Whether a distribution leaves nothing to distribute.
abbrev pub is_exhausted : Option FarmRewardDistribution → Bool
is_exhausted none = false
is_exhausted (some dis) = dis.undistributed == 0

unfoldable pub top_up : ℕ → ℕ → Farm → Result (Farm × Option ℕ)
top_up now amount farm = do
  dis ← try_distribute now denom farm
  if is_exhausted dis then ok (farm, none) else grow amount farm

-- `none` if the farm can not accept reward any more.
unfoldable pub add_reward : ℕ → ℕ → Farm → Result (Farm × Option ℕ)
add_reward now amount farm = elim (farm.status) [
  | created ↦ grow amount (start now farm)
  | running ↦ top_up now amount farm
  | ended ↦ ok (farm, none)
  | cleared ↦ ok (farm, none)
]

abbrev pub rps_after : Farm → Option FarmRewardDistribution → ℕ
rps_after farm none = farm.last_distribution.rps
rps_after farm (some dis) = dis.rps

unfoldable pub view_farmer_unclaimed_reward : ℕ → ℕ → ℕ → ℕ → Farm → Result ℕ
view_farmer_unclaimed_reward now user_rps user_seeds total_seeds farm =
    if total_seeds == 0
    then ok 0
    else if user_seeds == 0
    then ok 0
    else do dis ← try_distribute now total_seeds farm; owed user_seeds (rps_after farm dis) user_rps

-- What no one has claimed goes to the beneficiary.
unfoldable pub sweep : Farm → Result Farm
sweep farm =
    if ltb 0 farm.last_distribution.unclaimed
    then (do
      claimed ← checked_add u128_mod farm.amount_of_claimed farm.last_distribution.unclaimed
      beneficiary ← checked_add u128_mod farm.amount_of_beneficiary farm.last_distribution.unclaimed
      ok (record farm {
        last_distribution = record (farm.last_distribution) { unclaimed = 0 };
        amount_of_claimed = claimed;
        amount_of_beneficiary = beneficiary;
      }))
    else ok farm

abbrev pub is_ended : Farm → Bool
is_ended farm = elim (farm.status) [ ended ↦ true | _ ↦ false ]

unfoldable pub move_to_clear : ℕ → ℕ → Farm → Result (Farm × Bool)
move_to_clear now total_seeds farm = do
  farm ← if is_running farm.status then distribute now total_seeds farm else ok farm
  if is_ended farm
      then (do swept ← sweep farm; ok (record swept { status = cleared }, true))
      else ok (farm, false)

unfoldable pub can_be_removed : ℕ → ℕ → Farm → Result Bool
can_be_removed now total_seeds farm = elim (farm.status) [
  | ended ↦ ok true
  | running ↦ do dis ← try_distribute now total_seeds farm; ok (is_exhausted dis)
  | created ↦ ok false
  | cleared ↦ ok false
]
