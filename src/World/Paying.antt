-- ===== src/World/Paying.antt =====
-- In a possible world the calls that check the storage of an account go through, where its deposit pays for
-- it (ref-farming/src/token_receiver.rs, `ft_on_transfer`; lib.rs, `claim_reward_by_seed`).
use nft_farming.Prelude.{ℕ, ◌+◌, ◌≤◌, ◌<◌, ◌≡◌, refl, true, some, [], leb, arith, length}
use nft_farming.Checked.{
  ok, Holds, Holds->>=, Holds-both, Holds-map, Succeeds, Succeeds->>=, Succeeds-both, u128_mod,
}
use nft_farming.Map.{Map, lookup, lookup-insert_self}
use nft_farming.Map.Set
use nft_farming.Utils.{SeedId, FarmId, AccountId}
use nft_farming.Farm.{Farm}
use nft_farming.FarmSeed.{FarmSeed, ft}
use nft_farming.Farmer.{Farmer, UserRps, get_rps}
use nft_farming.Farmer.Footprint.{Grown, IsCovered, storage_usage-covered}
use nft_farming.Contract.{Contract, Env, rps_of}
use nft_farming.Claims.{
  get_farmer, get_farmer_wrapped, get_seed, get_seed_wrapped, claim_from_farms,
  internal_claim_user_reward_by_seed_id,
}
use nft_farming.Claims.Growth.{balance}
use nft_farming.Claims.Due.{due, claim_from_farms-IsSettled}
use nft_farming.Funds.{owes}
use nft_farming.Funds.Claims.{claim_by_seed-owes}
use nft_farming.Stakes.{internal_seed_deposit}
use nft_farming.Stakes.Moves.{moved, HasGrown, internal_seed_deposit-HasGrown}
use nft_farming.Storage.{assert_storage_usage, internal_farmer_storage}
use nft_farming.Receiver.{ft_on_transfer, receive_seed}
use nft_farming.Calls.{claim_reward_by_seed}
use nft_farming.World.{World}
use nft_farming.World.Staking.{CanClaim, CanClaim-IsReady, deposit_runs}

assert_storage_usage-covered :
    (env : Env) (account : AccountId) (c : Contract) (n k : ℕ) (f g : Farmer)
    → lookup account c.farmers ≡ some g
    → Grown n k f g
    → IsCovered env.storage_byte_cost n k f
    → assert_storage_usage env account c ≡ ok tt
unfolding assert_storage_usage internal_farmer_storage get_farmer_wrapped
assert_storage_usage-covered env account c n k f g known grown covered =
    let u = storage_usage-covered env.storage_byte_cost n k f g covered grown in
    ground (arith, known, u.0, u.1, u.2)

deposit_lem :
    (s : SeedId) (env : Env) (w : World) (sender_id : AccountId) (farmer : Farmer) (seed : FarmSeed)
    (amount : ℕ)
    → seed.seed_type ≡ ft
    → leb seed.min_deposit amount ≡ true
    → CanClaim env w sender_id env.predecessor_account_id farmer seed
    → seed.amount + amount < u128_mod
    → IsCovered env.storage_byte_cost (length seed.farms) 1 farmer
    → Succeeds
        (HasGrown s sender_id (moved s env.predecessor_account_id amount) w.contract)
        (receive_seed env sender_id amount w.contract)
unfolding receive_seed get_seed
deposit_lem s env w sender_id farmer seed amount is_ft enough can fits covered =
    let seed_id = env.predecessor_account_id in
    let m = internal_seed_deposit env seed_id sender_id amount w.contract in
    rw (can.found, is_ft, enough)
      (Succeeds->>= _ _ m _
        (Succeeds-both _ (HasGrown s sender_id (moved s seed_id amount) w.contract) m
          (deposit_runs env w sender_id seed_id farmer seed amount can fits)
          (internal_seed_deposit-HasGrown s env seed_id sender_id amount w.contract))
        λ c' ((g, known, grown), done).
          rw
            (assert_storage_usage-covered env sender_id c' (length seed.farms) 1 farmer g known
              grown covered)
            done)

-- In a possible world in which an account can claim from the farms of a seed of tokens, and its
-- deposit pays for the storage of one more seed and of one more reward and one more rps for each
-- farm, a transfer of the seed's token with an empty message, of at least the seed's minimum and
-- of an amount that fits 128 bits beside what is staked, does not panic: `ft_on_transfer` returns
-- 0, and adds the amount to what the account holds, to what all farmers hold and to what the seed
-- records, and to no other seed.
pub ft_on_transfer-Succeeds :
    (s : SeedId) (env : Env) (w : World) (sender_id : AccountId) (farmer : Farmer) (seed : FarmSeed)
    (amount : ℕ)
    → seed.seed_type ≡ ft
    → seed.min_deposit ≤ amount
    → CanClaim env w sender_id env.predecessor_account_id farmer seed
    → seed.amount + amount < u128_mod
    → IsCovered env.storage_byte_cost (length seed.farms) 1 farmer
    → Succeeds
        (λ (out : Contract × ℕ).
          (out.1 ≡ 0)
          × HasGrown s sender_id (moved s env.predecessor_account_id amount) w.contract out.0)
        (ft_on_transfer env sender_id amount [] w.contract)
unfolding ft_on_transfer
ft_on_transfer-Succeeds s env w sender_id farmer seed amount is_ft enough can fits covered =
    Succeeds->>= _ _ (receive_seed env sender_id amount w.contract) _
      (deposit_lem s env w sender_id farmer seed amount is_ft (ground (arith, enough)) can fits
        covered)
      λ c' done. (refl, done)

-- What a claim leaves of one reward token and one farm: the account has its due, and the farm's rps is
-- recorded, so that the same is not paid again.
abbrev pub HasClaimed :
    AccountId → FarmId → ℕ → AccountId → Farmer → FarmSeed → Contract → Contract → Type 0
HasClaimed t j now account farmer seed c c' =
    (g : Farmer) × (lookup account c'.farmers ≡ some g)
    × (balance t g
        ≡ balance t farmer
          + due t now seed.amount farmer.seeds (rps_of account c) c.farms seed.farms)
    × (farm : Farm) × (lookup j c'.farms ≡ some farm)
    × (get_rps j (rps_of account c') ≡ farm.last_distribution.rps)

claim_by_seed-HasClaimed :
    (t : AccountId) (j : FarmId) (env : Env) (w : World) (sender_id : AccountId) (seed_id : SeedId)
    (farmer : Farmer) (seed : FarmSeed)
    → CanClaim env w sender_id seed_id farmer seed
    → Set.contains j seed.farms ≡ true
    → Holds
        (HasClaimed t j env.block_timestamp sender_id farmer seed w.contract)
        (internal_claim_user_reward_by_seed_id env sender_id seed_id w.contract)
unfolding internal_claim_user_reward_by_seed_id get_farmer get_seed_wrapped
claim_by_seed-HasClaimed t j env w sender_id seed_id farmer seed can listed =
    let c = w.contract in
    let now = env.block_timestamp in
    let rps = rps_of sender_id c in
    rw (can.known, can.found)
      (Holds->>= _ _ (claim_from_farms now seed.amount seed.farms c.farms farmer rps) _
        (claim_from_farms-IsSettled t j now seed.amount seed.farms c.farms farmer rps can.claimable)
        λ (out : Map Farm × Farmer × UserRps) h.
          let own = rw listed at h.1 in
          (
            out.1,
            lookup-insert_self sender_id out.1 c.farmers,
            h.0,
            own.0,
            own.1,
            rw (lookup-insert_self sender_id out.2 c.user_rps) own.2,
          ))

-- In a possible world in which an account can claim from the farms of a seed, and its deposit pays
-- for the storage of one more reward and one more rps for each farm, `claim_reward_by_seed` does
-- not panic. Of each reward token it adds to the account's balance the shares that have accrued in
-- the seed's farms since the account's recorded rps, and what the contract answers for stays the
-- same; and for each of these farms it records the farm's rps, so that the same share is not due
-- again.
pub claim_reward_by_seed-Succeeds :
    (t : AccountId) (j : FarmId) (env : Env) (w : World) (seed_id : SeedId) (farmer : Farmer)
    (seed : FarmSeed)
    → CanClaim env w env.predecessor_account_id seed_id farmer seed
    → IsCovered env.storage_byte_cost (length seed.farms) 0 farmer
    → Set.contains j seed.farms ≡ true
    → Succeeds
        (λ c'.
          HasClaimed t j env.block_timestamp env.predecessor_account_id farmer seed w.contract c'
          × (owes t c' ≡ owes t w.contract))
        (claim_reward_by_seed env seed_id w.contract)
unfolding claim_reward_by_seed
claim_reward_by_seed-Succeeds t j env w seed_id farmer seed can covered listed =
    let sender_id = env.predecessor_account_id in
    let m = internal_claim_user_reward_by_seed_id env sender_id seed_id w.contract in
    let P = HasClaimed t j env.block_timestamp sender_id farmer seed w.contract in
    Succeeds->>= _ _ m _
      (Succeeds-both _ (λ c'. P c' × (owes t c' ≡ owes t w.contract)) m
        (CanClaim-IsReady env w sender_id seed_id farmer seed can)
        (Holds-map _ _ m
          (Holds-both _ _ m
            (claim_by_seed-HasClaimed t j env w sender_id seed_id farmer seed can listed)
            (claim_by_seed-owes t env sender_id seed_id w.contract))
          λ c' h. (h.0, h.1.0)))
      λ c' (r, done).
        rw
          (assert_storage_usage-covered env sender_id c' (length seed.farms) 0 farmer r.farmer'
            r.known r.size covered)
          done
