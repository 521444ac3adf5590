-- ===== src/Ledger.antt =====
-- The accounts of all farms of the contract (ref-farming/src/internals.rs): each farm, current or
-- outdated, has balanced accounts, and the operations that touch farms keep this.
use nft_farming.Prelude.{ℕ, Bool, Option, List, [], ◌∷◌, arith}
use nft_farming.Checked.{Holds, Holds->>=, Holds-bind, expect, unwrap_none, err41_farm_not_exist}
use nft_farming.Map.{Map, lookup, insert, All, All-lookup, All-insert, All-remove}
use nft_farming.Utils.{SeedId, FarmId, AccountId, NftBalance}
use nft_farming.Farm.{FarmTerms, Farm}
use nft_farming.Farm.Accounts.{IsBalanced}
use nft_farming.Farm.Balance.{
  claim_user_reward-IsBalanced, new_farm-IsBalanced, move_to_clear-IsBalanced,
}
use nft_farming.Farm.Lifecycle.{move_to_clear}
use nft_farming.FarmSeed.{FarmSeed, FarmSeedMetadata}
use nft_farming.Farmer.{Farmer, UserRps}
use nft_farming.Contract.{Contract, Env}
use nft_farming.Claims.{
  get_farmer, get_seed_wrapped, claim_user_reward_from_farm, claim_from_farms,
  internal_claim_user_reward_by_seed_id, internal_claim_user_reward_by_farm_id,
}
use nft_farming.Rewards.{internal_execute_withdraw_reward, withdraw_rewards}
use nft_farming.Farms.{seed_for_farm, internal_add_farm, retire, internal_remove_farm_by_farm_id}

abbrev pub AllBalanced : Contract → Type 0
AllBalanced c = All IsBalanced c.farms × All IsBalanced c.outdated_farms

claim_user_reward_from_farm-IsBalanced :
    (now total_seeds : ℕ) (farm : Farm) (farmer : Farmer) (rps : UserRps)
    → IsBalanced farm
    → Holds
        (λ (out : Farm × Farmer × UserRps). IsBalanced out.0)
        (claim_user_reward_from_farm now total_seeds farm farmer rps)
unfolding claim_user_reward_from_farm
claim_user_reward_from_farm-IsBalanced now total_seeds farm farmer rps b =
    grind (arith, claim_user_reward-IsBalanced)

claim_from_farms-All :
    (now amount : ℕ) (ids : List FarmId) (farms : Map Farm) (farmer : Farmer) (rps : UserRps)
    → All IsBalanced farms
    → Holds
        (λ (out : Map Farm × Farmer × UserRps). All IsBalanced out.0)
        (claim_from_farms now amount ids farms farmer rps)
unfolding claim_from_farms
claim_from_farms-All now amount [] farms farmer rps h = h
claim_from_farms-All now amount (farm_id ∷ rest) farms farmer rps h =
    Holds-bind _ (expect (lookup farm_id farms) unwrap_none) _ λ farm known.
      Holds->>= _ _ (claim_user_reward_from_farm now amount farm farmer rps) _
        (claim_user_reward_from_farm-IsBalanced now amount farm farmer rps
          (All-lookup IsBalanced farm_id farms farm h (ground arith)))
        λ out b.
          claim_from_farms-All now amount rest (insert farm_id out.0 farms) out.1 out.2
            (All-insert IsBalanced farm_id out.0 farms h b)

pub claim_by_seed-AllBalanced :
    (env : Env) (sender_id : AccountId) (seed_id : SeedId) (c : Contract)
    → AllBalanced c
    → Holds AllBalanced (internal_claim_user_reward_by_seed_id env sender_id seed_id c)
unfolding internal_claim_user_reward_by_seed_id get_farmer get_seed_wrapped
claim_by_seed-AllBalanced env sender_id seed_id c h = grind (arith, claim_from_farms-All)

pub claim_by_farm-AllBalanced :
    (env : Env) (sender_id : AccountId) (farm_id : FarmId) (c : Contract)
    → AllBalanced c
    → Holds AllBalanced (internal_claim_user_reward_by_farm_id env sender_id farm_id c)
unfolding internal_claim_user_reward_by_farm_id get_farmer get_seed_wrapped
claim_by_farm-AllBalanced env sender_id farm_id c h = grind (
  arith,
  All-lookup IsBalanced farm_id c.farms,
  claim_user_reward_from_farm-IsBalanced,
  All-insert IsBalanced farm_id,
)

pub execute_withdraw-AllBalanced :
    (token_id sender_id : AccountId) (amount : Option ℕ) (c : Contract)
    → AllBalanced c
    → Holds AllBalanced (internal_execute_withdraw_reward token_id sender_id amount c)
unfolding internal_execute_withdraw_reward
execute_withdraw-AllBalanced token_id sender_id amount c h = ground arith

pub withdraw_rewards-AllBalanced :
    (sender_id : AccountId) (farmer : Farmer) (ids : List FarmId) (seen : List AccountId)
    (c : Contract)
    → AllBalanced c
    → Holds AllBalanced (withdraw_rewards sender_id farmer ids seen c)
unfolding withdraw_rewards
withdraw_rewards-AllBalanced sender_id farmer [] seen c h = h
withdraw_rewards-AllBalanced sender_id farmer (farm_id ∷ rest) seen c h =
    grind (arith, execute_withdraw-AllBalanced, withdraw_rewards-AllBalanced sender_id farmer rest)

-- A new farm has balanced accounts.
pub internal_add_farm-AllBalanced :
    (terms : FarmTerms) (min_deposit : ℕ) (table : Option NftBalance)
    (metadata : Option FarmSeedMetadata) (c : Contract)
    → AllBalanced c
    → Holds
        (λ (out : Contract × FarmId). AllBalanced out.0)
        (internal_add_farm terms min_deposit table metadata c)
unfolding internal_add_farm seed_for_farm
internal_add_farm-AllBalanced terms min_deposit table metadata c h =
    grind (arith, new_farm-IsBalanced, All-insert IsBalanced)

retire-AllBalanced :
    (now : ℕ) (farm_id : FarmId) (seed : FarmSeed) (c : Contract)
    → AllBalanced c
    → Holds AllBalanced (retire now farm_id seed c)
unfolding retire
retire-AllBalanced now farm_id seed c h =
    Holds-bind _ (expect (lookup farm_id c.farms) err41_farm_not_exist) _ λ farm known.
      Holds->>= _ _ (move_to_clear now seed.amount farm) _
        (move_to_clear-IsBalanced now seed.amount farm
          (All-lookup IsBalanced farm_id c.farms farm h.0 (ground arith)))
        λ out b. (
          All-remove IsBalanced farm_id c.farms h.0,
          All-insert IsBalanced farm_id out.0 c.outdated_farms h.1 b.0,
        )

pub internal_remove_farm-AllBalanced :
    (env : Env) (farm_id : FarmId) (c : Contract)
    → AllBalanced c
    → Holds
        (λ (out : Contract × Bool). AllBalanced out.0)
        (internal_remove_farm_by_farm_id env farm_id c)
unfolding internal_remove_farm_by_farm_id
internal_remove_farm-AllBalanced env farm_id c h = grind (arith, retire-AllBalanced)
