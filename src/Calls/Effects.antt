-- ===== src/Calls/Effects.antt =====
-- What a step made of a stake keeps the sum of the stakes (ref-farming/src/lib.rs: the callbacks and
-- `remove_user_rps_by_farm`).
use nft_farming.Prelude.{ℕ, Bool, Option, none, some, arith, inl, inr}
use nft_farming.Checked.{Holds}
use nft_farming.Text.{text_eq_refl}
use nft_farming.Map.{lookup-insert}
use nft_farming.Utils.{SeedId, FarmId, AccountId, ContractNftTokenId, get_nft_balance_equivalent}
use nft_farming.Contract.{Contract, Env}
use nft_farming.Claims.{get_farmer}
use nft_farming.Claims.Frame.{remove_rps-SameStake, add_reward-SameStake}
use nft_farming.Rewards.{callback_post_withdraw_reward}
use nft_farming.Calls
use nft_farming.Calls.Restake.{IsGivenBack, IsNftGivenBack, IsRestaked}
use nft_farming.Calls.{assert_owner}
use nft_farming.Stakes.Sum.{IsStaked, staked-insert}
use nft_farming.Stakes.Conservation.{SameStakes}
use nft_farming.Stakes.Moves.{HasStaked}

module _ (s : SeedId) where
  pub callback_post_withdraw_reward-SameStakes :
      (env : Env) (token_id sender_id : AccountId) (amount : ℕ) (c : Contract)
      → Holds
          (SameStakes s sender_id c)
          (callback_post_withdraw_reward env token_id sender_id amount c)
  unfolding callback_post_withdraw_reward get_farmer
  callback_post_withdraw_reward-SameStakes env token_id sender_id amount c =
      grind (arith, add_reward-SameStake, lookup-insert, staked-insert, text_eq_refl sender_id)

  pub remove_user_rps_by_farm-SameStakes :
      (env : Env) (farm_id : FarmId) (c : Contract)
      → Holds
          (λ (out : Contract × Bool). SameStakes s env.predecessor_account_id c out.0)
          (Calls.remove_user_rps_by_farm env farm_id c)
  unfolding Calls.remove_user_rps_by_farm get_farmer
  remove_user_rps_by_farm-SameStakes env farm_id c = grind (
    arith,
    remove_rps-SameStake,
    lookup-insert,
    staked-insert,
    text_eq_refl env.predecessor_account_id,
  )

  -- A stake that is given back is one that grows.
  pub given_back_keeps :
      (env : Env) (seed_id : SeedId) (account : AccountId) (n : ℕ) (c c' : Contract)
      → IsStaked s c
      → IsGivenBack s env seed_id account n c c'
      → IsStaked s c'
  given_back_keeps env seed_id account n c c' h g = ground arith

  restake_keeps_stake :
      (seed_id : SeedId) (account : AccountId) (value : Option ℕ) (c c' : Contract)
      → IsStaked s c
      → IsRestaked s seed_id account value c c'
      → IsStaked s c'
  restake_keeps_stake seed_id account none c c' h g = rw g h
  restake_keeps_stake seed_id account (some n) c c' h g = ground arith

  pub deposit_keeps_stake :
      (seed_id : SeedId) (account : AccountId) (value : Option ℕ) (c : Contract)
      (out : Contract × Bool)
      → IsStaked s c
      → HasStaked s seed_id account value c out
      → IsStaked s out.0
  deposit_keeps_stake seed_id account none c out h g = rw g.1 h
  deposit_keeps_stake seed_id account (some n) c out h g = ground arith

  pub nft_given_back_keeps :
      (env : Env) (seed_id : SeedId) (account : AccountId) (token : ContractNftTokenId)
      (c c' : Contract)
      → IsStaked s c
      → IsNftGivenBack s env seed_id account token c c'
      → IsStaked s c'
  nft_given_back_keeps env seed_id account token c c' h (inl same) = rw same.1 h
  nft_given_back_keeps env seed_id account token c c' h (inr (_, table, _, done)) =
      restake_keeps_stake seed_id account (get_nft_balance_equivalent table token) c c' h done
