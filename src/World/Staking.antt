-- ===== src/World/Staking.antt =====
-- In a possible world deposits and withdrawals of a seed go through (ref-farming/src/internals.rs,
-- `internal_seed_deposit` and `internal_seed_withdraw`).
use nft_farming.Prelude.{ℕ, ◌+◌, ◌≤◌, ◌<◌, ◌≡◌, refl, some, [], arith, length}
use nft_farming.Checked.{ok, Succeeds, Succeeds->>=, Succeeds-both, Succeeds-map, u32_mod, u128_mod}
use nft_farming.Map.{lookup, insert, lookup-insert_self}
use nft_farming.Utils.{SeedId, AccountId}
use nft_farming.FarmSeed.{FarmSeed, SeedType, ft, add_amount, sub_amount}
use nft_farming.Farmer.{Farmer, seed_balance, add_seed, sub_seed}
use nft_farming.Farmer.Footprint.{Grown, add_seed-Grown}
use nft_farming.Farmer.Rps.{IsRpsCounted}
use nft_farming.Contract.{Contract, Env, rps_of}
use nft_farming.Claims.{get_farmer, get_seed, internal_claim_user_reward_by_seed_id}
use nft_farming.Claims.Live.{AllClaimable}
use nft_farming.Claims.Kept.{IsReady, AllClaimable-AllThere, claim_by_seed-IsReady}
use nft_farming.Rewards.Paying.{AllThere, HasPaid, withdraw_rewards-Succeeds}
use nft_farming.Stakes.{internal_seed_deposit, internal_seed_withdraw, settle_withdrawal}
use nft_farming.Stakes.Running.{
  add_amount-Succeeds, add_seed-Succeeds, sub_amount-Succeeds, sub_seed-Succeeds,
  settle_withdrawal-Succeeds,
}
use nft_farming.Stakes.Sum.{held-le}
use nft_farming.Stakes.Moves.{moved}
use nft_farming.Stakes.Unstake.{HasShrunk, internal_seed_withdraw-HasShrunk}
use nft_farming.Calls.{withdraw_seed, transfer_seed}
use nft_farming.Storage.{assert_one_yocto}
use nft_farming.World.{World, IsPossible}
use nft_farming.World.Reach.{possible-IsStaked}
use nft_farming.World.Claiming.{claim_by_seed-Succeeds}

-- A claim, a deposit and the withdrawal of rewards.
widen : (n : ℕ) (f g h k : Farmer) → Grown n 0 f g → Grown 0 1 g h → Grown 0 0 h k → Grown n 1 f k
widen n f g h k p q r = record {
  amount = ground (arith, p.amount, q.amount, r.amount);
  rewards = omega (arith, p.rewards, q.rewards, r.rewards);
  seeds = omega (arith, p.seeds, q.seeds, r.seeds);
  rps_count = omega (arith, p.rps_count, q.rps_count, r.rps_count);
}

module _ (env : Env) (w : World) (sender_id : AccountId) (seed_id : SeedId) (farmer : Farmer)
    (seed : FarmSeed) where
  -- What a claim of the account's rewards from the farms of a seed needs of a possible world.
  pub record CanClaim : Type 0 where
    pub possible : IsPossible w
    pub known : lookup sender_id w.contract.farmers ≡ some farmer
    pub found : lookup seed_id w.contract.seeds ≡ some seed
    pub claimable :
        AllClaimable env.block_timestamp seed.amount farmer.seeds w.contract.farms
          (rps_of sender_id w.contract)
          seed.farms
    pub room : farmer.rps_count + length seed.farms < u32_mod

  pub CanClaim-IsReady :
      CanClaim
      → Succeeds
          (IsReady seed_id sender_id seed farmer (rps_of sender_id w.contract))
          (internal_claim_user_reward_by_seed_id env sender_id seed_id w.contract)
  CanClaim-IsReady can =
      let m = internal_claim_user_reward_by_seed_id env sender_id seed_id w.contract in
      Succeeds-map _ _ m
        (Succeeds-both _ (IsReady seed_id sender_id seed farmer (rps_of sender_id w.contract)) m
          (claim_by_seed-Succeeds env w sender_id seed_id farmer seed seed_id can.possible can.known
            can.found can.claimable can.room)
          (claim_by_seed-IsReady env seed_id sender_id seed farmer w.contract can.known can.found (
            AllClaimable-AllThere env.block_timestamp seed.amount farmer.seeds w.contract.farms
              (rps_of sender_id w.contract) seed.farms can.claimable)))
        λ c₁ h. h.1

  -- The seed's record covers what the account holds.
  pub balance-recorded : CanClaim → seed_balance seed_id farmer ≤ seed.amount
  balance-recorded can = ground (
    arith,
    can.known,
    can.found,
    possible-IsStaked seed_id can.possible,
    held-le seed_id sender_id w.contract.farmers,
  )

  -- A deposit goes through, and lets the farmer grow by a seed, and a reward and an rps for each farm.
  pub deposit_runs :
      (amount : ℕ)
      → CanClaim
      → seed.amount + amount < u128_mod
      → Succeeds
          (λ c'.
            (g : Farmer) × (lookup sender_id c'.farmers ≡ some g)
            × Grown (length seed.farms) 1 farmer g)
          (internal_seed_deposit env seed_id sender_id amount w.contract)
  unfolding internal_seed_deposit get_seed get_farmer
  deposit_runs amount can fits =
      Succeeds->>= _ _ (internal_claim_user_reward_by_seed_id env sender_id seed_id w.contract) _
        (CanClaim-IsReady can)
        λ c₁ r.
          rw (r.found, r.known)
            (Succeeds->>= _ _ (add_amount amount seed) _ (add_amount-Succeeds amount seed fits)
              λ (seed' : FarmSeed) farms.
                let added = add_seed seed_id amount r.farmer' in
                Succeeds->>= _ _ added _
                  (Succeeds-both _ (Grown 0 1 r.farmer') added
                    (add_seed-Succeeds seed_id amount r.farmer'
                      (ground (arith, balance-recorded can, r.same.seeds, fits)))
                    (add_seed-Grown seed_id amount r.farmer'))
                  λ farmer'' h.
                    let there : AllThere seed'.farms c₁.farms = rw farms r.there in
                    Succeeds-map (HasPaid sender_id farmer'')
                      (λ c'.
                        (g : Farmer) × (lookup sender_id c'.farmers ≡ some g)
                        × Grown (length seed.farms) 1 farmer g)
                      _
                      (withdraw_rewards-Succeeds sender_id farmer'' farmer'' seed'.farms []
                        (record c₁ {
                          seeds = insert seed_id seed' c₁.seeds;
                          farmers = insert sender_id farmer'' c₁.farmers;
                        })
                        there (lookup-insert_self sender_id farmer'' c₁.farmers) (λ t _. refl))
                      λ c' (g, known, paid). (
                        g,
                        known,
                        widen (length seed.farms) farmer r.farmer' farmer'' g r.size h.1 paid,
                      ))

  withdrawal_runs :
      (amount : ℕ)
      → CanClaim
      → IsRpsCounted (farmer, rps_of sender_id w.contract)
      → 0 < amount
      → amount ≤ seed_balance seed_id farmer
      → Succeeds
          (λ (out : Contract × SeedType). out.1 ≡ seed.seed_type)
          (internal_seed_withdraw env seed_id sender_id amount w.contract)
  unfolding internal_seed_withdraw get_seed get_farmer
  withdrawal_runs amount can counted pos le =
      Succeeds->>= _ _ (internal_claim_user_reward_by_seed_id env sender_id seed_id w.contract) _
        (CanClaim-IsReady can)
        λ c₁ r.
          rw (r.found, r.known)
            (Succeeds->>= _ _ (sub_seed seed_id amount r.farmer') _
              (sub_seed-Succeeds seed_id amount r.farmer' pos (ground (arith, r.same.seeds, le)))
              λ (sub : Farmer × ℕ) count.
                Succeeds->>= _ _ (sub_amount amount seed) _
                  (sub_amount-Succeeds amount seed (omega (arith, le, balance-recorded can)))
                  λ (rest : FarmSeed × ℕ) kept.
                    Succeeds->>= _ _ (settle_withdrawal seed_id sender_id sub.1 sub.0 rest.0 c₁) _
                      (settle_withdrawal-Succeeds seed_id sender_id sub.1 sub.0 rest.0 c₁
                        (rw kept.0 r.there) ((r.counted counted).0, rw count (r.counted counted).1))
                      λ _ _. kept.1)

pub one_yocto : (env : Env) → env.attached_deposit ≡ 1 → assert_one_yocto env ≡ ok tt
unfolding assert_one_yocto
one_yocto env one = ground (arith, one)

-- In a possible world in which an account can claim from the farms of a seed of tokens, and whose
-- count of the account's rps is right, the account can withdraw any amount above 0 of the seed
-- that it holds, whether or not its deposit pays for its storage: with one yoctoNEAR attached
-- `withdraw_seed` does not panic, and takes the amount from what the account holds, from what all
-- farmers hold and from what the seed records, and from no other seed.
pub withdraw_seed-Succeeds :
    (s : SeedId) (env : Env) (w : World) (seed_id : SeedId) (farmer : Farmer) (seed : FarmSeed)
    (amount : ℕ)
    → env.attached_deposit ≡ 1
    → seed.seed_type ≡ ft
    → CanClaim env w env.predecessor_account_id seed_id farmer seed
    → IsRpsCounted (farmer, rps_of env.predecessor_account_id w.contract)
    → 0 < amount
    → amount ≤ seed_balance seed_id farmer
    → Succeeds
        (HasShrunk s env.predecessor_account_id (moved s seed_id amount) w.contract)
        (withdraw_seed env seed_id amount w.contract)
unfolding withdraw_seed transfer_seed
withdraw_seed-Succeeds s env w seed_id farmer seed amount one is_ft can counted pos le =
    let sender_id = env.predecessor_account_id in
    let m = internal_seed_withdraw env seed_id sender_id amount w.contract in
    rw (one_yocto env one) (
      Succeeds->>= _ _ m _
        (Succeeds-both _
          (λ (out : Contract × SeedType).
            HasShrunk s sender_id (moved s seed_id amount) w.contract out.0)
          m (withdrawal_runs env w sender_id seed_id farmer seed amount can counted pos le)
          (internal_seed_withdraw-HasShrunk s env seed_id sender_id amount w.contract))
        λ (out : Contract × SeedType) h. rw (h.0, is_ft) h.1)
