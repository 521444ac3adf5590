-- ===== src/Funds/Stable.antt =====
-- Staking, unstaking and claiming leave the contract funded (ref-farming/src/internals.rs, lib.rs).
use nft_farming.Prelude.{ℕ, ◌≡◌, Option, [], ◌∷◌, arith}
use nft_farming.Checked.{Holds, Holds-map}
use nft_farming.Map.{Map, insert}
use nft_farming.Utils.{SeedId, FarmId, AccountId}
use nft_farming.FarmSeed.{FarmSeed}
use nft_farming.Farmer.{Farmer, UserRps}
use nft_farming.Contract.{
  Contract, Env, Receipt, transfer, ft_transfer, nft_transfer, post_withdraw_reward,
  post_withdraw_ft_seed, post_withdraw_nft, request,
}
use nft_farming.Claims.{
  get_farmer, internal_claim_user_reward_by_seed_id, internal_claim_user_reward_by_farm_id,
}
use nft_farming.Claims.Growth.{sub_reward-balance}
use nft_farming.Rewards.{internal_execute_withdraw_reward}
use nft_farming.Stakes.Stability.{IsStable, IsPlain, Replaces}
use nft_farming.Funds.{commits, committed, IsFunded}
use nft_farming.Funds.Totals.{earned-insert, committed-append}
use nft_farming.Funds.Claims.{claim_by_seed-owes, claim_by_farm-owes}

module _ (t : AccountId) (gone : ℕ) where
  plain_lem : (r : Receipt) → IsPlain r → commits t r ≡ 0
  plain_lem (transfer account n) h = omega arith
  plain_lem (ft_transfer account n id (post_withdraw_reward token a m)) h = absurd h
  plain_lem (ft_transfer account n id (post_withdraw_ft_seed seed_id a m)) h = omega arith
  plain_lem (ft_transfer account n id (post_withdraw_nft seed_id a m k)) h = omega arith
  plain_lem (nft_transfer account n id (post_withdraw_reward token a m)) h = absurd h
  plain_lem (nft_transfer account n id (post_withdraw_ft_seed seed_id a m)) h = omega arith
  plain_lem (nft_transfer account n id (post_withdraw_nft seed_id a m k)) h = omega arith

  ask : (c : Contract) (r : Receipt) → IsPlain r → IsFunded t gone c → IsFunded t gone (request r c)
  unfolding committed
  ask c r plain h = omega (arith, h, committed-append t c.receipts (r ∷ []), plain_lem r plain)

  write :
      (c : Contract) (account : AccountId) (farmer : Farmer) (rps : Map UserRps)
      (seeds : Map FarmSeed)
      → Replaces farmer account c
      → IsFunded t gone c
      → IsFunded t gone
          (record c { farmers = insert account farmer c.farmers; user_rps = rps; seeds = seeds })
  write c account farmer rps seeds (old, known, p) h =
      ground (arith, known, p t, earned-insert t account farmer c.farmers)

  pay :
      (token_id sender_id : AccountId) (amount : Option ℕ) (c : Contract)
      → IsFunded t gone c
      → Holds (IsFunded t gone) (internal_execute_withdraw_reward token_id sender_id amount c)
  unfolding internal_execute_withdraw_reward get_farmer committed
  pay token_id sender_id amount c h =
      grind (arith, sub_reward-balance t, earned-insert t, committed-append t)

  claim :
      (env : Env) (sender_id : AccountId) (seed_id : SeedId) (c : Contract)
      → IsFunded t gone c
      → Holds (IsFunded t gone) (internal_claim_user_reward_by_seed_id env sender_id seed_id c)
  claim env sender_id seed_id c h =
      Holds-map _ (IsFunded t gone) _ (claim_by_seed-owes t env sender_id seed_id c)
        λ c' same. ground (arith, h, same)

  pub claim_by_farm :
      (env : Env) (sender_id : AccountId) (farm_id : FarmId) (c : Contract)
      → IsFunded t gone c
      → Holds (IsFunded t gone) (internal_claim_user_reward_by_farm_id env sender_id farm_id c)
  claim_by_farm env sender_id farm_id c h =
      Holds-map _ (IsFunded t gone) _ (claim_by_farm-owes t env sender_id farm_id c)
        λ c' same. ground (arith, h, same)

  pub stable : IsStable (IsFunded t gone)
  stable = record { write = write; upgrade = λ c seeds h. h; ask = ask; pay = pay; claim = claim }
