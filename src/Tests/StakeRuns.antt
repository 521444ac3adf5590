-- ===== src/Tests/StakeRuns.antt =====
-- Runs that move stakes and rewards.
use nft_farming.Prelude.{ℕ, ◌≡◌, refl, some, [], ◌∷◌, arith}
use nft_farming.Checked.{Holds, Succeeds}
use nft_farming.Map.{lookup}
use nft_farming.Text.{codes, text_eq}
use nft_farming.Utils.{
  NftBalance, ContractNftTokenId, contract_nft_token_id, get_nft_balance_equivalent,
}
use nft_farming.FarmSeed.{SeedType}
use nft_farming.Contract.{Contract, Env, failed, ft_transfer, post_withdraw_reward}
use nft_farming.Claims.{internal_get_reward, get_farmer_default}
use nft_farming.Rewards.{internal_execute_withdraw_reward, callback_post_withdraw_reward}
use nft_farming.Rewards.Refund.{withdraw-callback_failed}
use nft_farming.Calls.{callback_post_withdraw_ft_seed, callback_post_withdraw_nft}
use nft_farming.Calls.Restake.{
  IsGivenBack, IsNftGivenBack, callback_post_withdraw_ft_seed-IsGivenBack,
  callback_post_withdraw_nft-IsNftGivenBack,
}
use nft_farming.Stakes.{
  internal_seed_deposit, internal_seed_withdraw, internal_nft_deposit, internal_nft_withdraw,
}
use nft_farming.Stakes.Moves.{
  HasGrown, moved, HasStaked, internal_seed_deposit-HasGrown, internal_nft_deposit-HasStaked,
}
use nft_farming.Stakes.Unstake.{
  HasShrunk, HasUnstaked, internal_seed_withdraw-HasShrunk, internal_nft_withdraw-HasUnstaked,
}
use nft_farming.Tests.Data.{alice, bob, seed, pics, gold, contract, env_of}

abbrev alice_env : Env
alice_env = env_of alice 1 230 (failed ∷ [])

internal_seed_deposit-HasGrown_example :
    Holds
      (HasGrown seed alice (moved seed seed 4) contract)
      (internal_seed_deposit alice_env seed alice 4 contract)
internal_seed_deposit-HasGrown_example =
    internal_seed_deposit-HasGrown seed alice_env seed alice 4 contract

internal_seed_withdraw-HasShrunk_example :
    Holds
      (λ (out : Contract × SeedType). HasShrunk seed alice (moved seed seed 4) contract out.0)
      (internal_seed_withdraw alice_env seed alice 4 contract)
internal_seed_withdraw-HasShrunk_example =
    internal_seed_withdraw-HasShrunk seed alice_env seed alice 4 contract

internal_nft_deposit-HasStaked_example :
    Holds
      (λ out.
        (table : NftBalance) × (lookup pics contract.nft_balance_seeds ≡ some table)
        × HasStaked pics pics alice
            (get_nft_balance_equivalent table (contract_nft_token_id (codes "art") (codes "8")))
            contract
            out)
      (internal_nft_deposit alice_env pics alice (codes "art") (codes "8") contract)
internal_nft_deposit-HasStaked_example =
    internal_nft_deposit-HasStaked pics alice_env pics alice (codes "art") (codes "8") contract

internal_nft_withdraw-HasUnstaked_example :
    Holds
      (λ (out : Contract × ContractNftTokenId).
        HasUnstaked pics pics bob (contract_nft_token_id (codes "art") (codes "7")) contract out.0)
      (internal_nft_withdraw alice_env pics bob (codes "art") (codes "7") contract)
internal_nft_withdraw-HasUnstaked_example =
    internal_nft_withdraw-HasUnstaked pics alice_env pics bob (codes "art") (codes "7") contract

callback_post_withdraw_ft_seed-IsGivenBack_example :
    Holds
      (IsGivenBack seed alice_env seed alice 4 contract)
      (callback_post_withdraw_ft_seed alice_env seed alice 4 contract)
callback_post_withdraw_ft_seed-IsGivenBack_example =
    callback_post_withdraw_ft_seed-IsGivenBack seed alice_env seed alice 4 contract

callback_post_withdraw_nft-IsNftGivenBack_example :
    Holds
      (IsNftGivenBack pics alice_env pics alice
        (contract_nft_token_id (codes "art") (codes "8"))
        contract)
      (callback_post_withdraw_nft alice_env pics alice (codes "art") (codes "8") contract)
callback_post_withdraw_nft-IsNftGivenBack_example =
    callback_post_withdraw_nft-IsNftGivenBack pics alice_env pics alice (codes "art") (codes "8")
      contract

withdraw-callback_failed_example :
    Holds
      (λ (c' : Contract).
        (taken : ℕ) × (c'.receipts
          ≡ ft_transfer alice taken gold (post_withdraw_reward gold alice taken) ∷ [])
        × Succeeds
            (λ (c'' : Contract).
              internal_get_reward alice gold c'' ≡ internal_get_reward alice gold contract)
            (callback_post_withdraw_reward alice_env gold alice taken c'))
      (internal_execute_withdraw_reward gold alice (some 3) contract)
unfolding internal_get_reward get_farmer_default lookup text_eq
withdraw-callback_failed_example =
    withdraw-callback_failed alice_env gold gold alice (some 3) contract refl (omega arith)
