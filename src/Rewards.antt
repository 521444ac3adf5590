-- ===== src/Rewards.antt =====
-- ref-farming/src/lib.rs: paying a farmer's reward out, and the callback of that transfer.
pub mod Refund
pub mod Paying
use nft_farming.Prelude.{
  ℕ, Bool, Option, none, some, List, [], ◌∷◌, ◌++◌, ◌==◌, if◌then◌else◌, length,
}
use nft_farming.Checked.{
  Result, ok, err, err25_callback_post_withdraw_invalid, unreachable_code, unwrap_none, ◌>>=◌,
  expect,
}
use nft_farming.Map.{Map, lookup, insert, unwrap_or, is_some}
use nft_farming.Map.Set
use nft_farming.Utils.{FarmId, AccountId}
use nft_farming.Farm.{Farm}
use nft_farming.Farmer.{Farmer, sub_reward, add_reward}
use nft_farming.Contract.{
  Contract, Env, PromiseResult, not_ready, successful, failed, post_withdraw_reward, ft_transfer,
  request,
}
use nft_farming.Claims.{get_farmer}

unfoldable pub internal_execute_withdraw_reward :
    AccountId → AccountId → Option ℕ → Contract → Result Contract
internal_execute_withdraw_reward token_id sender_id amount c = do
  farmer ← get_farmer sender_id c
  (farmer', taken) ← sub_reward token_id (unwrap_or amount 0) farmer
  ok (
      request (ft_transfer sender_id taken token_id (post_withdraw_reward token_id sender_id taken))
        (record c { farmers = insert sender_id farmer' c.farmers }))

-- The loop over the farms of a seed that ends a deposit, a withdrawal and a claim: each reward token
-- for which `farmer`, read before the loop, has an entry is withdrawn once.
unfoldable pub withdraw_rewards :
    AccountId → Farmer → List FarmId → List AccountId → Contract → Result Contract
withdraw_rewards sender_id farmer [] reward_tokens c = ok c
withdraw_rewards sender_id farmer (farm_id ∷ rest) reward_tokens c = do
  farm ← expect (lookup farm_id c.farms) unwrap_none
  let reward_token = farm.terms.reward_token
  if Set.contains reward_token reward_tokens
      then withdraw_rewards sender_id farmer rest reward_tokens c
      else (do
        c' ←
            if is_some (lookup reward_token farmer.rewards)
            then internal_execute_withdraw_reward reward_token sender_id none c
            else ok c
        withdraw_rewards sender_id farmer rest (reward_tokens ++ reward_token ∷ []) c')

-- `env::promise_results_count() == 1`, and then `env::promise_result(0)`
unfoldable pub only_result : Env → Result PromiseResult
only_result env = elim (env.promise_results) [
  | [] ↦ err err25_callback_post_withdraw_invalid
  | r ∷ rs ↦ elim rs [ [] ↦ ok r | _ ∷ _ ↦ err err25_callback_post_withdraw_invalid ]
]

-- A failed transfer reverts the withdrawal.
unfoldable pub callback_post_withdraw_reward :
    Env → AccountId → AccountId → ℕ → Contract → Result Contract
callback_post_withdraw_reward env token_id sender_id amount c = do
  r ← only_result env
  elim r [
    | not_ready ↦ err unreachable_code
    | successful ↦ ok c
    | failed ↦ do
      farmer ← get_farmer sender_id c
      farmer' ← add_reward token_id amount farmer
      ok (record c { farmers = insert sender_id farmer' c.farmers })
  ]
