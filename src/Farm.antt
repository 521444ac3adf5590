-- ===== src/Farm.antt =====
-- ref-farming/src/farm.rs: one farm, which releases its reward by rounds and shares it among the
-- stakers of its seed. A method takes the block's timestamp `now`, in nanoseconds, where it reads
-- the clock. `RPS`, 32 bytes in little-endian order, is the number that the bytes stand for.
pub mod Lifecycle
pub mod Schedule
pub mod Accounts
pub mod Balance
pub mod Backing
pub mod Solvency
pub mod Rounds
pub mod Agreement
pub mod Again
pub mod Ends
pub mod Panics
use nft_farming.Prelude.{
  ℕ, ◌/◌, ◌%◌, ◌^◌, Bool, true, false, Option, none, some, ltb, leb, ◌==◌, if◌then◌else◌,
}
use nft_farming.Checked.{
  Result, ok, err500, ◌>>=◌, ◌>>◌, ensure, fit, checked_add, checked_sub, checked_mul, checked_div,
  u32_mod, u128_mod, u256_mod,
}
use nft_farming.Utils.{SeedId, FarmId, AccountId, to_nano, to_sec}

abbrev pub denom : ℕ
denom = 10 ^ 24

-- `FarmTerms`, and `HRFarmTerms`, which has the same fields
pub record FarmTerms : Type 0 where
  pub seed_id : SeedId
  pub reward_token : AccountId
  pub start_at : ℕ
  pub reward_per_session : ℕ
  pub session_interval : ℕ

pub data FarmStatus : Type 0 where
  created running ended cleared : FarmStatus

pub record FarmRewardDistribution : Type 0 where
  pub undistributed : ℕ
  pub unclaimed : ℕ
  pub rps : ℕ
  pub rr : ℕ

pub record Farm : Type 0 where
  pub farm_id : FarmId
  pub terms : FarmTerms
  pub status : FarmStatus
  pub last_distribution : FarmRewardDistribution
  pub amount_of_reward : ℕ
  pub amount_of_claimed : ℕ
  pub amount_of_beneficiary : ℕ

abbrev pub no_distribution : FarmRewardDistribution
no_distribution = record { undistributed = 0; unclaimed = 0; rps = 0; rr = 0 }

-- `Farm::new`
unfoldable pub new_farm : FarmId → FarmTerms → Farm
new_farm id terms = record {
  farm_id = id;
  terms = terms;
  status = created;
  last_distribution = no_distribution;
  amount_of_reward = 0;
  amount_of_claimed = 0;
  amount_of_beneficiary = 0;
}

-- The round, and the reward added, if what is left runs out first.
unfoldable pub last_rounds : ℕ → FarmRewardDistribution → Result (ℕ × ℕ)
last_rounds reward_per_session last = do
  whole ← checked_div last.undistributed reward_per_session
  let increased_rr = whole % u32_mod
  rr ← checked_add u32_mod last.rr increased_rr
  reward_caculated ← checked_mul u128_mod increased_rr reward_per_session
  rr' ← if ltb reward_caculated last.undistributed then checked_add u32_mod rr 1 else ok rr
  ok (rr', last.undistributed)

-- The round, and the reward added, by the clock or by what is left.
unfoldable pub release : ℕ → FarmTerms → FarmRewardDistribution → Result (ℕ × ℕ)
release now terms last = do
  elapsed ← checked_sub (to_sec now) terms.start_at
  rr ← checked_div elapsed terms.session_interval
  rounds ← checked_sub rr last.rr
  reward_added ← checked_mul u128_mod rounds terms.reward_per_session
  if ltb last.undistributed reward_added
      then last_rounds terms.reward_per_session last
      else ok (rr, reward_added)

-- The reward per seed, which is zero when nothing is staked.
unfoldable pub next_rps : ℕ → ℕ → ℕ → Result ℕ
next_rps total_seeds last_rps reward_added = if total_seeds == 0 then ok 0 else do
  scaled ← checked_mul u256_mod reward_added denom
  share ← checked_div scaled total_seeds
  checked_add u256_mod last_rps share

-- The distribution of a farm that has started.
unfoldable pub next_distribution :
    ℕ → ℕ → FarmTerms → FarmRewardDistribution → Result FarmRewardDistribution
next_distribution now total_seeds terms last = do
  (rr, reward_added) ← release now terms last
  unclaimed ← checked_add u128_mod last.unclaimed reward_added
  undistributed ← checked_sub last.undistributed reward_added
  rps ← next_rps total_seeds last.rps reward_added
  ok (record { undistributed = undistributed; unclaimed = unclaimed; rps = rps; rr = rr })

abbrev pub is_running : FarmStatus → Bool
is_running running = true
is_running _ = false

unfoldable pub try_distribute : ℕ → ℕ → Farm → Result (Option FarmRewardDistribution)
try_distribute now total_seeds farm =
    if is_running farm.status
    then (if ltb now (to_nano farm.terms.start_at) then ok none else do
      dis ← next_distribution now total_seeds farm.terms farm.last_distribution
      ok (some dis))
    else ok none

-- Keeps a distribution of a new round. With nothing staked its reward goes to the beneficiary.
unfoldable pub keep_distribution : ℕ → FarmRewardDistribution → Farm → Result Farm
keep_distribution total_seeds dis farm =
    if total_seeds == 0
    then (do
      claimed ← checked_add u128_mod farm.amount_of_claimed dis.unclaimed
      beneficiary ← checked_add u128_mod farm.amount_of_beneficiary dis.unclaimed
      ok (record farm {
        last_distribution = record dis { unclaimed = 0 };
        amount_of_claimed = claimed;
        amount_of_beneficiary = beneficiary;
      }))
    else ok (record farm { last_distribution = dis })

unfoldable pub end_if_empty : Farm → Farm
end_if_empty farm =
    if farm.last_distribution.undistributed == 0 then record farm { status = ended } else farm

unfoldable pub accept_distribution : ℕ → Option FarmRewardDistribution → Farm → Result Farm
accept_distribution total_seeds none farm = ok farm
accept_distribution total_seeds (some dis) farm = do
  kept ←
      if farm.last_distribution.rr == dis.rr
      then ok farm
      else keep_distribution total_seeds dis farm
  ok (end_if_empty kept)

unfoldable pub distribute : ℕ → ℕ → Farm → Result Farm
distribute now total_seeds farm = do
  dis ← try_distribute now total_seeds farm
  accept_distribution total_seeds dis farm

-- (rps - user_rps) * user_seeds / DENOM, as a `u128`
unfoldable pub owed : ℕ → ℕ → ℕ → Result ℕ
owed user_seeds rps user_rps = do
  gain ← checked_sub rps user_rps
  product ← checked_mul u256_mod user_seeds gain
  fit u128_mod (product / denom)

-- Takes `claimed` out of the unclaimed reward.
unfoldable pub pay_out : ℕ → Farm → Result Farm
pay_out claimed farm =
    if ltb 0 claimed
    then (do
      ensure (leb claimed farm.last_distribution.unclaimed) err500
      unclaimed ← checked_sub farm.last_distribution.unclaimed claimed
      amount_of_claimed ← checked_add u128_mod farm.amount_of_claimed claimed
      ok (record farm {
        last_distribution = record (farm.last_distribution) { unclaimed = unclaimed };
        amount_of_claimed = amount_of_claimed;
      }))
    else ok farm

-- Returns the farm, the new rps of the user, and the amount of reward.
unfoldable pub claim_user_reward : ℕ → ℕ → ℕ → ℕ → Farm → Result (Farm × ℕ × ℕ)
claim_user_reward now user_rps user_seeds total_seeds farm = do
  farm ← distribute now total_seeds farm
  claimed ← owed user_seeds farm.last_distribution.rps user_rps
  farm' ← pay_out claimed farm
  ok (farm', farm'.last_distribution.rps, claimed)
