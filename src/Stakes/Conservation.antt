-- ===== src/Stakes/Conservation.antt =====
-- What each operation does to the stake of one seed (ref-farming/src/internals.rs and lib.rs).
use nft_farming.Prelude.{ℕ, ◌≡◌, refl, Option, List, [], ◌∷◌, arith}
use nft_farming.Checked.{Holds}
use nft_farming.Text.{text_eq_iff, text_eq_refl}
use nft_farming.Map.{lookup, lookup-insert}
use nft_farming.Utils.{SeedId, FarmId, AccountId}
use nft_farming.Farmer.{Farmer}
use nft_farming.Contract.{Contract, Env}
use nft_farming.Claims.{
  get_farmer, get_seed_wrapped, internal_claim_user_reward_by_seed_id,
  internal_claim_user_reward_by_farm_id,
}
use nft_farming.Claims.Frame.{
  claim_from_farms-SameStake, claim_user_reward_from_farm-SameStake, sub_reward-SameStake,
}
use nft_farming.Rewards.{internal_execute_withdraw_reward, withdraw_rewards}
use nft_farming.Stakes.Sum.{held, staked, staked-insert}

module _ (s : SeedId) where
  -- The stake of `s`, its record, and what one account holds of it are as before.
  abbrev pub SameStakes : AccountId → Contract → Contract → Type 0
  SameStakes account c c' =
      (lookup s c'.seeds ≡ lookup s c.seeds)
      × (held s (lookup account c'.farmers) ≡ held s (lookup account c.farmers))
      × (staked s c'.farmers ≡ staked s c.farmers)

  pub claim_by_seed-SameStakes :
      (env : Env) (sender_id : AccountId) (seed_id : SeedId) (c : Contract)
      → Holds
          (SameStakes sender_id c)
          (internal_claim_user_reward_by_seed_id env sender_id seed_id c)
  unfolding internal_claim_user_reward_by_seed_id get_farmer get_seed_wrapped
  claim_by_seed-SameStakes env sender_id seed_id c = grind (
    arith,
    claim_from_farms-SameStake,
    lookup-insert,
    staked-insert,
    text_eq_iff seed_id s,
    text_eq_refl sender_id,
  )

  pub claim_by_farm-SameStakes :
      (env : Env) (sender_id : AccountId) (farm_id : FarmId) (c : Contract)
      → Holds
          (SameStakes sender_id c)
          (internal_claim_user_reward_by_farm_id env sender_id farm_id c)
  unfolding internal_claim_user_reward_by_farm_id get_farmer get_seed_wrapped
  claim_by_farm-SameStakes env sender_id farm_id c = grind (
    arith,
    claim_user_reward_from_farm-SameStake,
    lookup-insert,
    staked-insert,
    text_eq_refl sender_id,
  )

  pub execute_withdraw-SameStakes :
      (token_id sender_id : AccountId) (amount : Option ℕ) (c : Contract)
      → Holds
          (SameStakes sender_id c)
          (internal_execute_withdraw_reward token_id sender_id amount c)
  unfolding internal_execute_withdraw_reward get_farmer
  execute_withdraw-SameStakes token_id sender_id amount c =
      grind (arith, sub_reward-SameStake, lookup-insert, staked-insert, text_eq_refl sender_id)

  pub withdraw_rewards-SameStakes :
      (sender_id : AccountId) (farmer : Farmer) (ids : List FarmId) (seen : List AccountId)
      (c : Contract)
      → Holds (SameStakes sender_id c) (withdraw_rewards sender_id farmer ids seen c)
  unfolding withdraw_rewards
  withdraw_rewards-SameStakes sender_id farmer [] seen c = (refl, refl, refl)
  withdraw_rewards-SameStakes sender_id farmer (farm_id ∷ rest) seen c =
      grind (arith, execute_withdraw-SameStakes, withdraw_rewards-SameStakes sender_id farmer rest)
