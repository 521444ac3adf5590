-- ===== src/World/Nfts.antt =====
-- In a possible world a staked NFT can be taken out (ref-farming/src/internals.rs,
-- `internal_nft_withdraw`; lib.rs, `withdraw_nft`).
use nft_farming.Prelude.{ℕ, ◌≤◌, ◌<◌, ◌≡◌, true, some, arith}
use nft_farming.Checked.{Succeeds, Succeeds->>=, Succeeds-both}
use nft_farming.Text.{Text}
use nft_farming.Map.{lookup}
use nft_farming.Utils.{
  SeedId, AccountId, NftBalance, ContractNftTokenId, contract_nft_token_id,
  get_nft_balance_equivalent,
}
use nft_farming.FarmSeed.{FarmSeed, sub_amount}
use nft_farming.Farmer.{Farmer, seed_balance, sub_seed, sub_nft, has_nft}
use nft_farming.Farmer.Rps.{IsRpsCounted}
use nft_farming.Contract.{Contract, Env, rps_of}
use nft_farming.Claims.{get_farmer, get_seed, internal_claim_user_reward_by_seed_id}
use nft_farming.Calls.{withdraw_nft}
use nft_farming.Stakes.{internal_nft_withdraw, settle_withdrawal}
use nft_farming.Stakes.Running.{sub_amount-Succeeds, sub_seed-Succeeds, settle_withdrawal-Succeeds}
use nft_farming.Stakes.Unstake.{
  HasUnstaked, claim_by_seed-nft_balance_seeds, internal_nft_withdraw-HasUnstaked,
}
use nft_farming.World.{World}
use nft_farming.World.Staking.{CanClaim, CanClaim-IsReady, balance-recorded, one_yocto}

-- An NFT that is staked comes off the set, and nothing else changes.
sub_nft-staked :
    (seed_id : SeedId) (token : ContractNftTokenId) (farmer : Farmer)
    → has_nft token (lookup seed_id farmer.nft_seeds) ≡ true
    → ((sub_nft seed_id token farmer).1 ≡ some token)
      × ((sub_nft seed_id token farmer).0.seeds ≡ farmer.seeds)
      × ((sub_nft seed_id token farmer).0.rps_count ≡ farmer.rps_count)
unfolding sub_nft
sub_nft-staked seed_id token farmer h = ground (arith, h)

module _ (env : Env) (w : World) (sender_id : AccountId) (seed_id : SeedId) (farmer : Farmer)
    (seed : FarmSeed) where
  nft_withdrawal_runs :
      (contract_id token_id : Text) (table : NftBalance) (n : ℕ)
      → CanClaim env w sender_id seed_id farmer seed
      → IsRpsCounted (farmer, rps_of sender_id w.contract)
      → has_nft (contract_nft_token_id contract_id token_id) (lookup seed_id farmer.nft_seeds)
        ≡ true
      → lookup seed_id w.contract.nft_balance_seeds ≡ some table
      → get_nft_balance_equivalent table (contract_nft_token_id contract_id token_id) ≡ some n
      → 0 < n
      → n ≤ seed_balance seed_id farmer
      → Succeeds
          (λ _. Unit {0})
          (internal_nft_withdraw env seed_id sender_id contract_id token_id w.contract)
  unfolding internal_nft_withdraw get_seed get_farmer
  nft_withdrawal_runs contract_id token_id table n can counted has known worth pos le =
      let token = contract_nft_token_id contract_id token_id in
      let m = internal_claim_user_reward_by_seed_id env sender_id seed_id w.contract in
      Succeeds->>= _ _ m _
        (Succeeds-both _ _ m (CanClaim-IsReady env w sender_id seed_id farmer seed can)
          (claim_by_seed-nft_balance_seeds env sender_id seed_id w.contract))
        λ c₁ h.
          let r = h.0 in
          let off = sub_nft-staked seed_id token r.farmer' (rw (r.same.nft_seeds) has) in
          let farmer₁ = (sub_nft seed_id token r.farmer').0 in
          let listed : lookup seed_id c₁.nft_balance_seeds ≡ some table = rw h.1 known in
          rw (r.found, r.known, off.0, listed, worth)
            (Succeeds->>= _ _ (sub_seed seed_id n farmer₁) _
              (sub_seed-Succeeds seed_id n farmer₁ pos (ground (arith, off.1, r.same.seeds, le)))
              λ (sub : Farmer × ℕ) count.
                Succeeds->>= _ _ (sub_amount n seed) _
                  (sub_amount-Succeeds n seed
                    (omega (arith, le, balance-recorded env w sender_id seed_id farmer seed can)))
                  λ (rest : FarmSeed × ℕ) kept.
                    Succeeds->>= _ _ (settle_withdrawal seed_id sender_id sub.1 sub.0 rest.0 c₁) _
                      (settle_withdrawal-Succeeds seed_id sender_id sub.1 sub.0 rest.0 c₁
                        (rw kept.0 r.there)
                        ((r.counted counted).0, rw (count, off.2) (r.counted counted).1))
                      λ _ _. tt)

-- In a possible world in which an account can claim from the farms of a seed, and whose count of
-- the account's rps is right, the account can withdraw an NFT that it has staked, if its value
-- under the seed is above 0 and the account holds as much of the seed, whether or not its deposit
-- pays for its storage: with one yoctoNEAR attached `withdraw_nft` does not panic, and takes the
-- value from what the account holds, from what all farmers hold and from what the seed records,
-- and from no other seed.
pub withdraw_nft-Succeeds :
    (s : SeedId) (env : Env) (w : World) (seed_id : SeedId) (farmer : Farmer) (seed : FarmSeed)
    (contract_id token_id : Text) (table : NftBalance) (n : ℕ)
    → env.attached_deposit ≡ 1
    → CanClaim env w env.predecessor_account_id seed_id farmer seed
    → IsRpsCounted (farmer, rps_of env.predecessor_account_id w.contract)
    → has_nft (contract_nft_token_id contract_id token_id) (lookup seed_id farmer.nft_seeds) ≡ true
    → lookup seed_id w.contract.nft_balance_seeds ≡ some table
    → get_nft_balance_equivalent table (contract_nft_token_id contract_id token_id) ≡ some n
    → 0 < n
    → n ≤ seed_balance seed_id farmer
    → Succeeds
        (HasUnstaked s seed_id env.predecessor_account_id
          (contract_nft_token_id contract_id token_id)
          w.contract)
        (withdraw_nft env seed_id contract_id token_id w.contract)
unfolding withdraw_nft
withdraw_nft-Succeeds s env w seed_id farmer seed contract_id token_id table n one can counted has
      known worth pos le =
    let sender_id = env.predecessor_account_id in
    let token = contract_nft_token_id contract_id token_id in
    let m = internal_nft_withdraw env seed_id sender_id contract_id token_id w.contract in
    rw (one_yocto env one) (
      Succeeds->>= _ _ m _
        (Succeeds-both _
          (λ (out : Contract × ContractNftTokenId).
            HasUnstaked s seed_id sender_id token w.contract out.0)
          m
          (nft_withdrawal_runs env w sender_id seed_id farmer seed contract_id token_id table n can
            counted has known worth pos le)
          (internal_nft_withdraw-HasUnstaked s env seed_id sender_id contract_id token_id
            w.contract))
        λ (out : Contract × ContractNftTokenId) h. h.1)
