-- ===== src/Funds/Farms.antt =====
-- What the operations of a farm do to its unpaid reward (ref-farming/src/farm.rs): a distribution moves
-- it, a claim pays from it, and a deposit adds to it.
use nft_farming.Prelude.{ℕ, ◌+◌, ◌≡◌, refl, Bool, Option, none, some, arith, if◌then◌else◌}
use nft_farming.Checked.{Holds, Holds->>=, checked_add, checked_sub}
use nft_farming.Map.{is_some}
use nft_farming.Farm.{
  FarmTerms, FarmRewardDistribution, Farm, next_distribution, try_distribute, keep_distribution,
  accept_distribution, end_if_empty, distribute, pay_out, claim_user_reward,
}
use nft_farming.Farm.Lifecycle.{grow, start, top_up, add_reward, sweep, move_to_clear}
use nft_farming.Funds.{unpaid}

abbrev pub left : FarmRewardDistribution → ℕ
left dis = dis.undistributed + dis.unclaimed

next_distribution-left :
    (now total_seeds : ℕ) (terms : FarmTerms) (last : FarmRewardDistribution)
    → Holds (λ dis. left dis ≡ left last) (next_distribution now total_seeds terms last)
unfolding next_distribution checked_add checked_sub
next_distribution-left now total_seeds terms last = grind arith

abbrev left_of : Farm → Option FarmRewardDistribution → ℕ
left_of farm none = left farm.last_distribution
left_of farm (some dis) = left dis

try_distribute-left :
    (now total_seeds : ℕ) (farm : Farm)
    → Holds
        (λ dis. left_of farm dis ≡ left farm.last_distribution)
        (try_distribute now total_seeds farm)
unfolding try_distribute
try_distribute-left now total_seeds farm = grind (arith, next_distribution-left)

-- The same terms, and all of the unpaid reward.
abbrev pub SameUnpaid : Farm → Farm → Type 0
SameUnpaid farm farm' = (unpaid farm' ≡ unpaid farm) × (farm'.terms ≡ farm.terms)

accept_distribution-SameUnpaid :
    (total_seeds : ℕ) (dis : Option FarmRewardDistribution) (farm : Farm)
    → left_of farm dis ≡ left farm.last_distribution
    → Holds (SameUnpaid farm) (accept_distribution total_seeds dis farm)
unfolding accept_distribution keep_distribution end_if_empty checked_add
accept_distribution-SameUnpaid total_seeds none farm h = (refl, refl)
accept_distribution-SameUnpaid total_seeds (some dis) farm h = ground arith

pub distribute-SameUnpaid :
    (now total_seeds : ℕ) (farm : Farm) → Holds (SameUnpaid farm) (distribute now total_seeds farm)
unfolding distribute
distribute-SameUnpaid now total_seeds farm =
    Holds->>= _ _ (try_distribute now total_seeds farm) _ (try_distribute-left now total_seeds farm)
      λ dis h. accept_distribution-SameUnpaid total_seeds dis farm h

pay_out-unpaid :
    (claimed : ℕ) (farm : Farm)
    → Holds
        (λ farm'. (unpaid farm' + claimed ≡ unpaid farm) × (farm'.terms ≡ farm.terms))
        (pay_out claimed farm)
unfolding pay_out checked_add checked_sub
pay_out-unpaid claimed farm = ground arith

pub claim_user_reward-unpaid :
    (now user_rps user_seeds total_seeds : ℕ) (farm : Farm)
    → Holds
        (λ (out : Farm × ℕ × ℕ). (unpaid out.0 + out.2 ≡ unpaid farm) × (out.0.terms ≡ farm.terms))
        (claim_user_reward now user_rps user_seeds total_seeds farm)
unfolding claim_user_reward
claim_user_reward-unpaid now user_rps user_seeds total_seeds farm =
    grind (arith, distribute-SameUnpaid, pay_out-unpaid)

-- What a deposit of reward adds.
abbrev pub accepted : ℕ → Option ℕ → ℕ
accepted amount cur_remain = if is_some cur_remain then amount else 0

abbrev pub HasAdded : ℕ → Farm → Farm × Option ℕ → Type 0
HasAdded amount farm out =
    (unpaid out.0 ≡ unpaid farm + accepted amount out.1)
    × (out.0.terms.reward_token ≡ farm.terms.reward_token)

grow-HasAdded : (amount : ℕ) (farm : Farm) → Holds (HasAdded amount farm) (grow amount farm)
unfolding grow checked_add
grow-HasAdded amount farm = ground arith

start-SameUnpaid :
    (now : ℕ) (farm : Farm)
    → (unpaid (start now farm) ≡ unpaid farm)
      × ((start now farm).terms.reward_token ≡ farm.terms.reward_token)
unfolding start
start-SameUnpaid now farm = ground arith

top_up-HasAdded :
    (now amount : ℕ) (farm : Farm) → Holds (HasAdded amount farm) (top_up now amount farm)
unfolding top_up
top_up-HasAdded now amount farm = grind (arith, grow-HasAdded)

pub add_reward-HasAdded :
    (now amount : ℕ) (farm : Farm) → Holds (HasAdded amount farm) (add_reward now amount farm)
unfolding add_reward
add_reward-HasAdded now amount farm =
    grind (arith, top_up-HasAdded, grow-HasAdded, start-SameUnpaid now farm)

sweep-SameUnpaid : (farm : Farm) → Holds (SameUnpaid farm) (sweep farm)
unfolding sweep checked_add
sweep-SameUnpaid farm = ground arith

pub move_to_clear-SameUnpaid :
    (now total_seeds : ℕ) (farm : Farm)
    → Holds (λ (out : Farm × Bool). SameUnpaid farm out.0) (move_to_clear now total_seeds farm)
unfolding move_to_clear
move_to_clear-SameUnpaid now total_seeds farm =
    grind (arith, distribute-SameUnpaid, sweep-SameUnpaid)
