-- ===== src/Farm/Balance.antt =====
-- Every method of a farm keeps its accounts (ref-farming/src/farm.rs).
use nft_farming.Prelude.{
  ℕ, ◌+◌, ◌≡◌, Bool, true, false, none, some, arith, if◌then◌else◌, inl, inr, Bool-cases, ◌⊎◌,
}
use nft_farming.Checked.{Result, ok, err, ◌>>=◌, Holds, Holds->>=, checked_add, checked_sub}
use nft_farming.Utils.{FarmId}
use nft_farming.Farm.{
  FarmTerms, Farm, cleared, new_farm, is_running, distribute, owed, pay_out, claim_user_reward,
}
use nft_farming.Farm.Lifecycle.{grow, start, top_up, add_reward, sweep, is_ended, move_to_clear}
use nft_farming.Farm.Accounts.{IsBalanced, distribute-IsBalanced}

pub new_farm-IsBalanced : (id : FarmId) (terms : FarmTerms) → IsBalanced (new_farm id terms)
unfolding new_farm
new_farm-IsBalanced id terms = omega arith

pay_out-IsBalanced :
    (claimed : ℕ) (farm : Farm) → IsBalanced farm → Holds IsBalanced (pay_out claimed farm)
unfolding pay_out checked_add checked_sub
pay_out-IsBalanced claimed farm b = ground arith

-- A claim from a farm with balanced accounts leaves them balanced, if it does not panic, whatever
-- the time, the terms and the stake.
pub claim_user_reward-IsBalanced :
    (now user_rps user_seeds total_seeds : ℕ) (farm : Farm)
    → IsBalanced farm
    → Holds (λ out. IsBalanced out.0) (claim_user_reward now user_rps user_seeds total_seeds farm)
unfolding claim_user_reward
claim_user_reward-IsBalanced now user_rps user_seeds total_seeds farm b =
    Holds->>= IsBalanced _ (distribute now total_seeds farm) _
      (distribute-IsBalanced now total_seeds farm b)
      λ farm' b'.
        Holds->>= (λ _. Unit {0}) _ (owed user_seeds farm'.last_distribution.rps user_rps) _
          (trivial _)
          λ claimed _.
            Holds->>= IsBalanced _ (pay_out claimed farm') _ (pay_out-IsBalanced claimed farm' b')
              λ farm'' b''. b''
  where
    trivial : (r : Result ℕ) → Holds (λ _. Unit {0}) r
    trivial (ok a) = tt
    trivial (err e) = tt

-- Adding reward to a farm with balanced accounts leaves them balanced, if it does not panic, and
-- either refuses and changes nothing, or adds the amount to the reward and to what is
-- undistributed and returns the latter.
pub add_reward-IsBalanced :
    (now amount : ℕ) (farm : Farm)
    → IsBalanced farm
    → Holds
        (λ out.
          IsBalanced out.0
          × ((out.1 ≡ none) × (out.0 ≡ farm)
              ⊎ (out.1 ≡ some out.0.last_distribution.undistributed)
                × (out.0.amount_of_reward ≡ farm.amount_of_reward + amount)
                × (out.0.last_distribution.undistributed
                    ≡ farm.last_distribution.undistributed + amount)))
        (add_reward now amount farm)
unfolding add_reward start top_up grow checked_add
add_reward-IsBalanced now amount farm b = ground arith

sweep-IsBalanced :
    (farm : Farm)
    → IsBalanced farm
    → Holds (λ f. IsBalanced f × (f.last_distribution.unclaimed ≡ 0)) (sweep farm)
unfolding sweep checked_add
sweep-IsBalanced farm b = ground arith

-- `Ended` to `Cleared`
abbrev finish : Farm → Result (Farm × Bool)
finish farm =
    if is_ended farm
    then (do swept ← sweep farm; ok (record swept { status = cleared }, true))
    else ok (farm, false)

abbrev IsFinished : Farm × Bool → Type 0
IsFinished (farm, done) =
    IsBalanced farm
    × ((done ≡ false) ⊎ (farm.status ≡ cleared) × (farm.amount_of_reward ≡ farm.amount_of_claimed))

finish-IsFinished : (farm : Farm) → IsBalanced farm → Holds IsFinished (finish farm)
unfolding sweep checked_add
finish-IsFinished farm b = ground arith

-- Clearing a farm with balanced accounts leaves them balanced, if it does not panic, and either
-- reports `false` or leaves the farm cleared with all its reward claimed, by the farmers or by the
-- beneficiary.
pub move_to_clear-IsBalanced :
    (now total_seeds : ℕ) (farm : Farm)
    → IsBalanced farm
    → Holds
        (λ (out : Farm × Bool).
          IsBalanced out.0
          × ((out.1 ≡ false)
              ⊎ (out.0.status ≡ cleared) × (out.0.amount_of_reward ≡ out.0.amount_of_claimed)))
        (move_to_clear now total_seeds farm)
unfolding move_to_clear
move_to_clear-IsBalanced now total_seeds farm b = elim (Bool-cases (is_running farm.status)) [
  | inl run ↦ rw run (
      Holds->>= IsBalanced IsFinished (distribute now total_seeds farm) finish
        (distribute-IsBalanced now total_seeds farm b) finish-IsFinished)
  | inr idle ↦ rw idle (finish-IsFinished farm b)
]
