-- ===== src/Funds/Claims.antt =====
-- What the farms pay is what the farmer earns (ref-farming/src/internals.rs).
use nft_farming.Prelude.{ℕ, ◌+◌, ◌≡◌, List, [], ◌∷◌, arith}
use nft_farming.Checked.{Holds}
use nft_farming.Map.{Map}
use nft_farming.Utils.{SeedId, FarmId, AccountId}
use nft_farming.Farm.{Farm}
use nft_farming.Farmer.{Farmer, UserRps}
use nft_farming.Contract.{Contract, Env}
use nft_farming.Claims.{
  get_farmer, get_seed_wrapped, claim_user_reward_from_farm, claim_from_farms,
  internal_claim_user_reward_by_seed_id, internal_claim_user_reward_by_farm_id,
}
use nft_farming.Claims.Growth.{balance, set_rps-rewards, add_reward-balance}
use nft_farming.Funds.{holding, held_by_farms, owes}
use nft_farming.Funds.Totals.{held_by_farms-insert, earned-insert}
use nft_farming.Funds.Farms.{claim_user_reward-unpaid}

module _ (t : AccountId) where
  pub claim_user_reward_from_farm-paid :
      (now total_seeds : ℕ) (farm : Farm) (farmer : Farmer) (rps : UserRps)
      → Holds
          (λ (out : Farm × Farmer × UserRps).
            balance t out.1 + holding t out.0 ≡ balance t farmer + holding t farm)
          (claim_user_reward_from_farm now total_seeds farm farmer rps)
  unfolding claim_user_reward_from_farm
  claim_user_reward_from_farm-paid now total_seeds farm farmer rps =
      grind (arith, claim_user_reward-unpaid, set_rps-rewards, add_reward-balance t)

  pub claim_from_farms-paid :
      (now amount : ℕ) (ids : List FarmId) (farms : Map Farm) (farmer : Farmer) (rps : UserRps)
      → Holds
          (λ (out : Map Farm × Farmer × UserRps).
            balance t out.1 + held_by_farms t out.0 ≡ balance t farmer + held_by_farms t farms)
          (claim_from_farms now amount ids farms farmer rps)
  unfolding claim_from_farms
  claim_from_farms-paid now amount [] farms farmer rps = omega arith
  claim_from_farms-paid now amount (farm_id ∷ rest) farms farmer rps = grind (
    arith,
    claim_user_reward_from_farm-paid,
    held_by_farms-insert t,
    claim_from_farms-paid now amount rest,
  )

  -- A claim by seed moves reward from farms to a farmer, and nothing else.
  pub claim_by_seed-owes :
      (env : Env) (sender_id : AccountId) (seed_id : SeedId) (c : Contract)
      → Holds
          (λ c'. (owes t c' ≡ owes t c) × (c'.reward_info ≡ c.reward_info))
          (internal_claim_user_reward_by_seed_id env sender_id seed_id c)
  unfolding internal_claim_user_reward_by_seed_id get_farmer get_seed_wrapped
  claim_by_seed-owes env sender_id seed_id c = grind (arith, claim_from_farms-paid, earned-insert t)

  pub claim_by_farm-owes :
      (env : Env) (sender_id : AccountId) (farm_id : FarmId) (c : Contract)
      → Holds
          (λ c'. (owes t c' ≡ owes t c) × (c'.reward_info ≡ c.reward_info))
          (internal_claim_user_reward_by_farm_id env sender_id farm_id c)
  unfolding internal_claim_user_reward_by_farm_id get_farmer get_seed_wrapped
  claim_by_farm-owes env sender_id farm_id c =
      grind (arith, claim_user_reward_from_farm-paid, held_by_farms-insert t, earned-insert t)
