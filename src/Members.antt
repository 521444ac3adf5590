-- ===== src/Members.antt =====
-- Registered accounts (ref-farming/src/storage_impl.rs): every account has one farmer, and
-- `farmer_count` counts them. The operations of the other modules keep this.
pub mod Storing
pub mod Rejoin
use nft_farming.Prelude.{
  ℕ, ◌+◌, ◌≡◌, refl, Bool, true, false, Option, none, some, List, [], ◌∷◌, ◌++◌, arith, ltb, ◌==◌,
  if◌then◌else◌, length,
}
use nft_farming.Checked.{
  Result, ok, err, ◌>>=◌, ◌>>◌, Holds, Holds->>=, Holds-bind, checked_add, checked_sub, expect,
}
use nft_farming.Map.{Map, IsMap, lookup, insert, insert-IsMap, length-insert, is_some}
use nft_farming.Utils.{SeedId, FarmId, AccountId}
use nft_farming.Farmer.{Farmer}
use nft_farming.Contract.{Contract, Env, rps_of}
use nft_farming.Claims.{
  get_farmer, get_seed_wrapped, internal_claim_user_reward_by_seed_id,
  internal_claim_user_reward_by_farm_id,
}
use nft_farming.Rewards.{internal_execute_withdraw_reward, withdraw_rewards}

-- No account has two farmers, and the count is right.
abbrev pub IsCounted : Contract → Type 0
IsCounted c = IsMap c.farmers × (c.farmer_count ≡ length c.farmers)

pub claim_by_seed-IsCounted :
    (env : Env) (sender_id : AccountId) (seed_id : SeedId) (c : Contract)
    → IsCounted c
    → Holds IsCounted (internal_claim_user_reward_by_seed_id env sender_id seed_id c)
unfolding internal_claim_user_reward_by_seed_id get_farmer get_seed_wrapped
claim_by_seed-IsCounted env sender_id seed_id c h = grind (arith, insert-IsMap, length-insert)

pub claim_by_farm-IsCounted :
    (env : Env) (sender_id : AccountId) (farm_id : FarmId) (c : Contract)
    → IsCounted c
    → Holds IsCounted (internal_claim_user_reward_by_farm_id env sender_id farm_id c)
unfolding internal_claim_user_reward_by_farm_id get_farmer get_seed_wrapped
claim_by_farm-IsCounted env sender_id farm_id c h = grind (arith, insert-IsMap, length-insert)

pub execute_withdraw-IsCounted :
    (token_id sender_id : AccountId) (amount : Option ℕ) (c : Contract)
    → IsCounted c
    → Holds IsCounted (internal_execute_withdraw_reward token_id sender_id amount c)
unfolding internal_execute_withdraw_reward get_farmer
execute_withdraw-IsCounted token_id sender_id amount c h =
    grind (arith, insert-IsMap, length-insert)

pub withdraw_rewards-IsCounted :
    (sender_id : AccountId) (farmer : Farmer) (ids : List FarmId) (seen : List AccountId)
    (c : Contract)
    → IsCounted c
    → Holds IsCounted (withdraw_rewards sender_id farmer ids seen c)
unfolding withdraw_rewards
withdraw_rewards-IsCounted sender_id farmer [] seen c h = h
withdraw_rewards-IsCounted sender_id farmer (farm_id ∷ rest) seen c h =
    grind (arith, execute_withdraw-IsCounted, withdraw_rewards-IsCounted sender_id farmer rest)
