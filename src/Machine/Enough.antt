-- ===== src/Machine/Enough.antt =====
-- In a reachable state a seed's record suffices for what a farmer withdraws
-- (ref-farming/src/internals.rs, `internal_seed_withdraw`).
use nft_farming.Prelude.{ℕ, ◌+◌, ◌≤◌, ◌≡◌, arith}
use nft_farming.Checked.{
  Result, ok, ◌>>=◌, Holds, Holds->>=, Holds-bind, err31_seed_not_exist, err10_acc_not_registered,
  Succeeds, Succeeds-map, checked_sub, expect,
}
use nft_farming.Map.{lookup}
use nft_farming.Utils.{SeedId, AccountId}
use nft_farming.FarmSeed.{FarmSeed, sub_amount}
use nft_farming.Farmer.{Farmer, sub_seed, seed_balance}
use nft_farming.Contract.{Contract, Env}
use nft_farming.Claims.{get_farmer, get_seed, internal_claim_user_reward_by_seed_id}
use nft_farming.Stakes.Running.{sub_amount-Succeeds}
use nft_farming.Stakes.Sum.{held-le}
use nft_farming.Stakes.Conservation.{SameStakes, claim_by_seed-SameStakes}
use nft_farming.Machine.{IsReachable}
use nft_farming.Machine.Staked.{reachable-IsStaked}

-- Whoever can subtract an amount from a farmer's balance holds that amount.
sub_seed-le :
    (seed_id : SeedId) (amount : ℕ) (farmer : Farmer)
    → Holds (λ _. amount ≤ seed_balance seed_id farmer) (sub_seed seed_id amount farmer)
unfolding sub_seed checked_sub
sub_seed-le seed_id amount farmer = ground arith

-- The steps of a withdrawal before the seed's amount is lowered.
abbrev pub before_sub_amount : Env → SeedId → AccountId → ℕ → Contract → Result FarmSeed
before_sub_amount env seed_id sender_id amount c = do
  c₁ ← internal_claim_user_reward_by_seed_id env sender_id seed_id c
  seed ← get_seed seed_id c₁
  farmer ← get_farmer sender_id c₁
  _ ← sub_seed seed_id amount farmer
  ok seed

-- In a reachable state, once the claim, the look-ups and the farmer's own subtraction of a
-- withdrawal have succeeded, lowering the amount that the seed records does not panic, and leaves
-- what it was less the amount withdrawn.
pub withdraw-sub_amount :
    (env : Env) (seed_id : SeedId) (sender_id : AccountId) (amount : ℕ) {c : Contract}
    → IsReachable c
    → Holds
        (λ seed.
          Succeeds (λ (out : FarmSeed × ℕ). out.1 + amount ≡ seed.amount) (sub_amount amount seed))
        (before_sub_amount env seed_id sender_id amount c)
unfolding get_seed get_farmer
withdraw-sub_amount env seed_id sender_id amount {c = c} r =
    let sum = reachable-IsStaked seed_id r in
    Holds->>= (SameStakes seed_id sender_id c) _
      (internal_claim_user_reward_by_seed_id env sender_id seed_id c) _
      (claim_by_seed-SameStakes seed_id env sender_id seed_id c)
      λ c₁ same.
        Holds-bind _ (expect (lookup seed_id c₁.seeds) err31_seed_not_exist) _ λ seed known.
          Holds-bind _ (expect (lookup sender_id c₁.farmers) err10_acc_not_registered) _
            λ farmer found.
              Holds->>= _ _ (sub_seed seed_id amount farmer) _ (sub_seed-le seed_id amount farmer)
                λ _ le.
                  Succeeds-map _ _ (sub_amount amount seed)
                    (sub_amount-Succeeds amount seed (
                      ground
                        (arith, sum, same, known, found, le, held-le seed_id sender_id c₁.farmers)))
                    λ out h. h.2
