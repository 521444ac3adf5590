-- ===== src/World/Claiming.antt =====
-- In a possible world nothing but the farms of the seed can stop a claim (ref-farming/src/internals.rs).
use nft_farming.Prelude.{◌+◌, ◌<◌, ◌≡◌, some, arith, length}
use nft_farming.Checked.{Succeeds, Succeeds->>=, u32_mod, u128_mod}
use nft_farming.Map.{Map, lookup}
use nft_farming.Utils.{SeedId, AccountId}
use nft_farming.Farm.{Farm}
use nft_farming.FarmSeed.{FarmSeed}
use nft_farming.Farmer.{Farmer, UserRps}
use nft_farming.Contract.{Env, rps_of}
use nft_farming.Claims.{
  get_farmer, get_seed_wrapped, claim_from_farms, internal_claim_user_reward_by_seed_id,
}
use nft_farming.Claims.Growth.{balance}
use nft_farming.Claims.Live.{AllClaimable, claim_from_farms-Succeeds}
use nft_farming.Funds.{held_by_farms, owes}
use nft_farming.Funds.Totals.{balance-le, earned-insert}
use nft_farming.World.{World, IsPossible}
use nft_farming.World.Solvent.{possible-IsSolvent}

-- What a farmer has and the farms hold fits 128 bits, of every token.
fits :
    (w : World) (account : AccountId) (farmer : Farmer)
    → IsPossible w
    → lookup account w.contract.farmers ≡ some farmer
    → (token : AccountId) → balance token farmer + held_by_farms token w.contract.farms < u128_mod
fits w account farmer p known token =
    ground (
      arith,
      known,
      (possible-IsSolvent token p).funded,
      balance-le token account w.contract.farmers,
    )

-- In a possible world an account with a stake can claim from all farms of a seed: if each of these
-- farms is there, is live, and covers what its stakers may claim, no farm is listed twice, and the
-- account's count of rps has room for them, the claim does not panic, and it moves reward from the
-- farms to the account without changing their sum.
pub claim_by_seed-Succeeds :
    (env : Env) (w : World) (sender_id : AccountId) (seed_id : SeedId) (farmer : Farmer)
    (seed : FarmSeed) (token : AccountId)
    → IsPossible w
    → lookup sender_id w.contract.farmers ≡ some farmer
    → lookup seed_id w.contract.seeds ≡ some seed
    → AllClaimable env.block_timestamp seed.amount farmer.seeds w.contract.farms
        (rps_of sender_id w.contract)
        seed.farms
    → farmer.rps_count + length seed.farms < u32_mod
    → Succeeds
        (λ c. (owes token c ≡ owes token w.contract) × (c.reward_info ≡ w.contract.reward_info))
        (internal_claim_user_reward_by_seed_id env sender_id seed_id w.contract)
unfolding internal_claim_user_reward_by_seed_id get_farmer get_seed_wrapped
claim_by_seed-Succeeds env w sender_id seed_id farmer seed token p known found claimable count =
    let c = w.contract in
    rw (known, found)
      (Succeeds->>= _ _
        (claim_from_farms env.block_timestamp seed.amount seed.farms c.farms farmer
          (rps_of sender_id c))
        _
        (claim_from_farms-Succeeds token env.block_timestamp seed.amount seed.farms c.farms farmer
          (rps_of sender_id c) claimable (fits w sender_id farmer p known) count)
        λ (out : Map Farm × Farmer × UserRps) same.
          ground (arith, same, known, earned-insert token sender_id out.1 c.farmers))
