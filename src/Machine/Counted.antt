-- ===== src/Machine/Counted.antt =====
-- In every reachable state `farmer_count` is the number of farmers, and no account has two
-- (ref-farming/src/lib.rs, storage_impl.rs).
use nft_farming.Prelude.{ℕ, refl, Bool, false, Option, arith}
use nft_farming.Checked.{Holds}
use nft_farming.Farmer.{Farmer}
use nft_farming.Map.{insert, insert-IsMap, length-insert}
use nft_farming.Utils.{FarmId, AccountId, NftBalance}
use nft_farming.Farm.{FarmTerms}
use nft_farming.FarmSeed.{FarmSeed, FarmSeedMetadata}
use nft_farming.Contract.{Contract, Env, new_contract}
use nft_farming.Farms.{seed_for_farm, internal_add_farm, retire, internal_remove_farm_by_farm_id}
use nft_farming.Receiver.{receive_reward}
use nft_farming.Stakes.Stability.{IsStable, Replaces, pays}
use nft_farming.Rewards.{callback_post_withdraw_reward}
use nft_farming.Claims.{get_farmer}
use nft_farming.Machine.{IsReachable}
use nft_farming.Machine.Invariant.{IsInvariant}
use nft_farming.Machine.Stable.{IsStable-IsKept}
use nft_farming.Machine.Reach.{reachable}
use nft_farming.Members.{IsCounted, claim_by_seed-IsCounted, claim_by_farm-IsCounted}
use nft_farming.Members.Storing.{
  storage_deposit-IsCounted, storage_withdraw-IsCounted, storage_unregister-IsCounted,
}

stable_write :
    (c : Contract) (account : AccountId) (farmer : Farmer)
    → Replaces farmer account c
    → IsCounted c
    → IsCounted (record c { farmers = insert account farmer c.farmers })
stable_write c account farmer replaces h = (
  insert-IsMap account farmer c.farmers h.0,
  ground (arith, length-insert account farmer c.farmers, replaces.1),
)

stable : IsStable IsCounted
stable = record {
  write = λ c account farmer rps seeds known h. stable_write c account farmer known h;
  upgrade = λ c seeds h. h;
  ask = λ c r plain h. h;
  pay = pays IsCounted stable_write (λ c r h. h);
  claim = claim_by_seed-IsCounted;
}

open_farm :
    (terms : FarmTerms) (min_deposit : ℕ) (table : Option NftBalance)
    (metadata : Option FarmSeedMetadata) (c : Contract)
    → IsCounted c
    → Holds
        (λ (out : Contract × FarmId). IsCounted out.0)
        (internal_add_farm terms min_deposit table metadata c)
unfolding internal_add_farm seed_for_farm
open_farm terms min_deposit table metadata c h = ground arith

retire-IsCounted :
    (now : ℕ) (farm_id : FarmId) (seed : FarmSeed) (c : Contract)
    → IsCounted c
    → Holds IsCounted (retire now farm_id seed c)
unfolding retire
retire-IsCounted now farm_id seed c h = ground arith

close_farm :
    (env : Env) (farm_id : FarmId) (c : Contract)
    → IsCounted c
    → Holds
        (λ (out : Contract × Bool). IsCounted out.0)
        (internal_remove_farm_by_farm_id env farm_id c)
unfolding internal_remove_farm_by_farm_id
close_farm env farm_id c h = grind (arith, retire-IsCounted)

reward :
    (env : Env) (amount : ℕ) (farm_id : FarmId) (c : Contract)
    → IsCounted c
    → Holds IsCounted (receive_reward env amount farm_id c)
unfolding receive_reward
reward env amount farm_id c h = ground arith

init : (owner_id : AccountId) → Holds IsCounted (new_contract false owner_id)
unfolding new_contract
init owner_id = (tt, refl)

give_back_reward :
    (env : Env) (token_id sender_id : AccountId) (amount : ℕ) (c : Contract)
    → IsCounted c
    → Holds IsCounted (callback_post_withdraw_reward env token_id sender_id amount c)
unfolding callback_post_withdraw_reward get_farmer
give_back_reward env token_id sender_id amount c h = grind (arith, insert-IsMap, length-insert)

pub invariant : IsInvariant IsCounted
invariant = record {
  calls = record {
    kept = IsStable-IsKept IsCounted stable;
    owner = λ c owner_id h. h;
    claim_by_farm = claim_by_farm-IsCounted;
    open_farm = open_farm;
    close_farm = close_farm;
    reward = reward;
    deposit = storage_deposit-IsCounted;
    withdraw = storage_withdraw-IsCounted;
    unregister = storage_unregister-IsCounted;
  };
  init = init;
  ready = λ c h. h;
  give_back_reward = give_back_reward;
}

-- Whatever calls are made, by whom and in what order: in the state that they reach no account has
-- two farmers, and `farmer_count` is the number of farmers.
pub reachable-IsCounted : {c : Contract} → IsReachable c → IsCounted c
reachable-IsCounted r = reachable IsCounted invariant r
