-- ===== src/Tests/ContractRuns.antt =====
-- Runs of the whole contract: reachable states, storage, and what only the owner may do.
use nft_farming.Prelude.{◌-◌, ◌≡◌, ◌≤◌, refl, true, false, none, some, [], ◌∷◌, arith}
use nft_farming.Checked.{
  ok, err, overflow, ◌>>=◌, Holds, checked_mul, checked_add, checked_sub, fit,
}
use nft_farming.Map.{remove, lookup, insert, is_some}
use nft_farming.Text.{text_eq, contains, split}
use nft_farming.Utils.{parse_farm_id, gen_farm_id, parse_seed_id}
use nft_farming.Utils.Ids.{parse_farm_id-gen_farm_id}
use nft_farming.Farmer.{
  get_rps, set_rps, remove_rps, storage_usage, farmer_bytes, new_farmer, add_seed,
}
use nft_farming.Map.Set
use nft_farming.Text.Decimal.{print_usize}
use nft_farming.Farm.{
  new_farm, claim_user_reward, distribute, try_distribute, accept_distribution, owed, pay_out,
}
use nft_farming.FarmSeed.{new_farm_seed, add_amount}
use nft_farming.Claims.{
  get_farmer, get_seed, get_farmer_wrapped, get_seed_wrapped, internal_claim_user_reward_by_seed_id,
  claim_from_farms, claim_user_reward_from_farm,
}
use nft_farming.Rewards.{withdraw_rewards}
use nft_farming.Stakes.{internal_seed_deposit}
use nft_farming.Farms.{internal_add_farm, seed_for_farm}
use nft_farming.Receiver.{ft_on_transfer, receive_seed}
use nft_farming.Calls
use nft_farming.Storage.{
  assert_one_yocto, storage_deposit, internal_farmer_storage, register_new,
  suggested_min_storage_usage, internal_register_account, with_balance, storage_balance_of,
  StorageBalance, storage_withdraw, storage_unregister, assert_storage_usage,
}
use nft_farming.Contract.{Contract, new_contract, transfer, rps_of}
use nft_farming.Storage.Deposits.{IsCovered, paid, storage_withdraw-IsCovered}
use nft_farming.Stakes.Sum.{IsStaked}
use nft_farming.Members.{IsCounted}
use nft_farming.Members.Rejoin.{HasLeft, storage_unregister-HasLeft, rejoined_lem}
use nft_farming.Ledger.{AllBalanced}
use nft_farming.Machine.{execute, IsReachable, deployed, run, run-IsReachable}
use nft_farming.Machine.Counted.{reachable-IsCounted}
use nft_farming.Machine.Balanced.{reachable-AllBalanced}
use nft_farming.Machine.Staked.{reachable-IsStaked}
use nft_farming.Machine.Listed.{reachable-lookup}
use nft_farming.Tests.Data.{
  calls, deployed_contract, reached, alice, owner, seed, farm_id, contract, env_of, farmer_of,
}

storage_withdraw-IsCovered_example :
    Holds
      (λ (out : Contract × StorageBalance).
        IsCovered (env_of alice 1 230 []) alice out.0
        × (paid alice out.0 ≤ paid alice contract)
        × (out.0.receipts ≡ transfer alice (paid alice contract - paid alice out.0) ∷ []))
      (storage_withdraw (env_of alice 1 230 []) (some 9) contract)
storage_withdraw-IsCovered_example =
    storage_withdraw-IsCovered (env_of alice 1 230 []) (some 9) contract

parse_farm_id-gen_farm_id_example : parse_farm_id (gen_farm_id seed 12) ≡ ok (seed, 12)
unfolding contains
parse_farm_id-gen_farm_id_example = parse_farm_id-gen_farm_id seed 12 refl (omega arith)

deployed_run : new_contract false owner ≡ ok deployed_contract
unfolding new_contract
deployed_run = refl

reached-run : run calls deployed_contract ≡ ok reached
unfolding run execute storage_deposit internal_farmer_storage get_farmer_wrapped lookup register_new
    suggested_min_storage_usage checked_mul internal_register_account checked_add with_balance
    storage_balance_of insert text_eq storage_usage farmer_bytes new_farmer Calls.create_simple_farm
    Calls.assert_owner internal_add_farm seed_for_farm get_seed_wrapped new_farm_seed parse_seed_id
    split gen_farm_id print_usize Set.insert new_farm checked_sub ft_on_transfer receive_seed
    get_seed internal_seed_deposit internal_claim_user_reward_by_seed_id get_farmer claim_from_farms
    claim_user_reward_from_farm get_rps claim_user_reward distribute try_distribute
    accept_distribution owed pay_out fit set_rps add_amount add_seed withdraw_rewards Set.contains
    assert_storage_usage
reached-run = refl

reached-IsReachable : IsReachable reached
reached-IsReachable = run-IsReachable calls (deployed owner deployed_run) reached-run

reachable-IsStaked_example : IsStaked seed reached
reachable-IsStaked_example = reachable-IsStaked seed reached-IsReachable

reachable-IsCounted_example : IsCounted reached
reachable-IsCounted_example = reachable-IsCounted reached-IsReachable

reachable-AllBalanced_example : AllBalanced reached
reachable-AllBalanced_example = reachable-AllBalanced reached-IsReachable

-- alice without rewards and seeds, who has claimed from the farm
abbrev idle : Contract
idle = record contract { farmers = (alice, farmer_of alice [] [] [] 1) ∷ []; farmer_count = 1 }

abbrev left : Contract
left = record idle { farmers = []; farmer_count = 0; receipts = transfer alice 100_000 ∷ [] }

abbrev rejoined : Contract
rejoined = record left { farmers = (alice, farmer_of alice [] [] [] 0) ∷ []; farmer_count = 1 }

left_run : storage_unregister (env_of alice 1 230 []) none idle ≡ ok (left, true)
unfolding storage_unregister get_farmer_wrapped lookup text_eq checked_sub remove assert_one_yocto
left_run = refl

storage_unregister-HasLeft_example :
    Holds (HasLeft alice idle) (storage_unregister (env_of alice 1 230 []) none idle)
storage_unregister-HasLeft_example = storage_unregister-HasLeft (env_of alice 1 230 []) none idle

rejoined_run : internal_register_account alice 100_000 left ≡ ok rejoined
unfolding internal_register_account get_farmer_wrapped lookup checked_add insert new_farmer
rejoined_run = refl

rejoined_lem_example :
    (get_farmer alice rejoined >>= λ farmer. remove_rps farm_id farmer (rps_of alice rejoined))
    ≡ err overflow
unfolding lookup text_eq
rejoined_lem_example =
    rejoined_lem (env_of alice 1 230 []) none farm_id 100_000 idle left rejoined left_run
      rejoined_run refl

reachable-lookup_example : is_some (lookup farm_id reached.farms) ≡ true
unfolding lookup text_eq Set.contains
reachable-lookup_example = reachable-lookup seed farm_id reached-IsReachable refl refl
