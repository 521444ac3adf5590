-- ===== src/Calls/Loss.antt =====
-- What the callback of an NFT's failed transfer loses (ref-farming/src/lib.rs,
-- `callback_post_withdraw_nft`).
use nft_farming.Prelude.{ℕ, ◌+◌, ◌-◌, ◌≡◌, refl, some, [], ◌∷◌, arith}
use nft_farming.Checked.{
  ok, Holds, Holds->>=, Holds-bind, Holds-both, Holds-found, checked_add, expect,
  err31_seed_not_exist,
}
use nft_farming.Text.{Text}
use nft_farming.Map.{lookup, lookup-insert_self}
use nft_farming.Utils.{
  SeedId, AccountId, ContractNftTokenId, NftBalance, contract_nft_token_id,
  get_nft_balance_equivalent,
}
use nft_farming.FarmSeed.{FarmSeed, add_amount}
use nft_farming.Farmer.{Farmer, add_seed, add_nft}
use nft_farming.Contract.{Contract, Env, failed}
use nft_farming.Rewards.{only_result}
use nft_farming.Claims.{get_farmer, get_seed, internal_claim_user_reward_by_seed_id}
use nft_farming.Claims.Growth.{balance, claim_by_seed-Poorer}
use nft_farming.Funds.{owes}
use nft_farming.Funds.Totals.{earned-insert}
use nft_farming.Funds.Claims.{claim_by_seed-owes}
use nft_farming.Calls.{restake_nft, callback_post_withdraw_nft}

-- A claim for `farmer` that pays `claimed` of a token, and the state in which it is lost: farms and
-- recorded rps have been charged, and the farmer has the rewards and the rps count of before.
pub record HasLost (t : AccountId) (env : Env) (seed_id : SeedId) (account : AccountId)
    (farmer : Farmer) (c c' : Contract) : Type 0 where
  pub after_claim : Contract
  pub paid : Farmer
  pub written : Farmer
  pub claimed : ℕ
  pub claim : internal_claim_user_reward_by_seed_id env account seed_id c ≡ ok after_claim
  pub known : lookup account after_claim.farmers ≡ some paid
  pub pays : balance t paid ≡ balance t farmer + claimed
  pub farms : c'.farms ≡ after_claim.farms
  pub user_rps : c'.user_rps ≡ after_claim.user_rps
  pub stands : lookup account c'.farmers ≡ some written
  pub rewards : written.rewards ≡ farmer.rewards
  pub rps_count : written.rps_count ≡ farmer.rps_count
  pub lost : owes t c' + claimed ≡ owes t c

add_seed-rewards :
    (seed_id : SeedId) (amount : ℕ) (farmer : Farmer)
    → Holds
        (λ (f : Farmer). (f.rewards ≡ farmer.rewards) × (f.rps_count ≡ farmer.rps_count))
        (add_seed seed_id amount farmer)
unfolding add_seed checked_add
add_seed-rewards seed_id amount farmer = ground arith

only_failed : (env : Env) → env.promise_results ≡ failed ∷ [] → only_result env ≡ ok failed
unfolding only_result
only_failed env only = rw only refl

found_farmer :
    (account : AccountId) (c : Contract) (farmer : Farmer)
    → lookup account c.farmers ≡ some farmer
    → get_farmer account c ≡ ok farmer
unfolding get_farmer
found_farmer account c farmer known = rw known refl

module _ (t : AccountId) where
  restake_nft-HasLost :
      (env : Env) (seed_id : SeedId) (sender_id : AccountId) (token : ContractNftTokenId) (n : ℕ)
      (farmer : Farmer) (seed : FarmSeed) (c : Contract)
      → lookup sender_id c.farmers ≡ some farmer
      → Holds
          (HasLost t env seed_id sender_id farmer c)
          (restake_nft env seed_id sender_id token (some n) farmer seed c)
  unfolding restake_nft add_nft
  restake_nft-HasLost env seed_id sender_id token n farmer seed c known =
      let m = internal_claim_user_reward_by_seed_id env sender_id seed_id c in
      Holds->>= _ _ m _
        (Holds-both _ _ m (Holds-found (λ c₁. m ≡ ok c₁) m λ c₁ e. e) (
          Holds-both _ _ m (claim_by_seed-Poorer env sender_id seed_id c farmer known)
            (claim_by_seed-owes t env sender_id seed_id c)))
        λ c₁ h.
          let (e, ((paid, there, richer), same)) = h in
          Holds->>= _ _ (add_seed seed_id n (add_nft seed_id token farmer)) _
            (add_seed-rewards seed_id n (add_nft seed_id token farmer))
            λ farmer' kept. Holds-bind _ (add_amount n seed) _ λ seed' _. record {
              after_claim = c₁;
              paid = paid;
              written = farmer';
              claimed = balance t paid - balance t farmer;
              claim = e;
              known = there;
              pays = omega (arith, richer t);
              farms = refl;
              user_rps = refl;
              stands = lookup-insert_self sender_id farmer' c₁.farmers;
              rewards = kept.0;
              rps_count = kept.1;
              lost = ground (
                arith,
                richer t,
                same.0,
                there,
                kept.0,
                earned-insert t sender_id farmer' c₁.farmers,
              );
            }

  -- The callback of a failed transfer of an NFT that has a value under its seed, if it does not
  -- panic, loses a claim: the farms and the recorded rps are those after a claim by the account,
  -- the account's rewards and its rps count are those of before, and of each reward token the
  -- contract answers for less, by just what the claim paid.
  pub callback_post_withdraw_nft-HasLost :
      (env : Env) (seed_id : SeedId) (sender_id : AccountId) (contract_id token_id : Text)
      (c : Contract) (farmer : Farmer) (table : NftBalance) (n : ℕ)
      → env.promise_results ≡ failed ∷ []
      → lookup sender_id c.farmers ≡ some farmer
      → lookup seed_id c.nft_balance_seeds ≡ some table
      → get_nft_balance_equivalent table (contract_nft_token_id contract_id token_id) ≡ some n
      → Holds
          (HasLost t env seed_id sender_id farmer c)
          (callback_post_withdraw_nft env seed_id sender_id contract_id token_id c)
  unfolding callback_post_withdraw_nft get_seed
  callback_post_withdraw_nft-HasLost env seed_id sender_id contract_id token_id c farmer table n
        only known listed worth =
      rw (only_failed env only, found_farmer sender_id c farmer known)
        (Holds-bind _ (expect (lookup seed_id c.seeds) err31_seed_not_exist) _ λ seed _.
          rw (listed, worth)
            (restake_nft-HasLost env seed_id sender_id (contract_nft_token_id contract_id token_id)
              n farmer seed c known))
