-- ===== src/Stakes/Stability.antt =====
-- What a property of the contract has to allow for staking and unstaking to keep it
-- (ref-farming/src/internals.rs).
use nft_farming.Prelude.{◌≡◌, ℕ, Option, some, arith}
use nft_farming.Checked.{ok, Holds, Holds->>=, Holds-bind, err10_acc_not_registered, expect}
use nft_farming.Map.{Map, lookup, insert, unwrap_or}
use nft_farming.Utils.{SeedId, AccountId, ContractNftTokenId}
use nft_farming.Farmer.{Farmer, UserRps, sub_reward, add_nft}
use nft_farming.FarmSeed.{FarmSeed}
use nft_farming.Contract.{
  Contract, Env, Receipt, ft_transfer, nft_transfer, post_withdraw_reward, request,
}
use nft_farming.Claims.{get_farmer, internal_claim_user_reward_by_seed_id}
use nft_farming.Claims.Growth.{Poorer, same-Poorer, Poorer-trans, sub_reward-Poorer}
use nft_farming.Rewards.{internal_execute_withdraw_reward}

-- A receipt other than the transfer of a reward.
abbrev pub IsPlain : Receipt → Type 0
IsPlain (ft_transfer receiver amount contract_id (post_withdraw_reward token account n)) = ⊥
IsPlain (nft_transfer receiver token_id contract_id (post_withdraw_reward token account n)) = ⊥
IsPlain _ = Unit

-- A farmer that is no richer in rewards than the one that stands.
abbrev pub Replaces : Farmer → AccountId → Contract → Type 0
Replaces farmer account c =
    (old : Farmer) × (lookup account c.farmers ≡ some old) × Poorer farmer old

-- What `P` has to allow: another farmer that is no richer, and new values for rps and seeds; plain
-- receipts; payments of rewards; claims.
pub record IsStable (P : Contract → Type 0) : Type 0 where
  pub write :
      (c : Contract) (account : AccountId) (farmer : Farmer) (rps : Map UserRps)
      (seeds : Map FarmSeed)
      → Replaces farmer account c
      → P c
      → P (record c { farmers = insert account farmer c.farmers; user_rps = rps; seeds = seeds })
  pub upgrade : (c : Contract) (seeds : Map FarmSeed) → P c → P (record c { seeds = seeds })
  pub ask : (c : Contract) (r : Receipt) → IsPlain r → P c → P (request r c)
  pub pay :
      (token_id sender_id : AccountId) (amount : Option ℕ) (c : Contract)
      → P c
      → Holds P (internal_execute_withdraw_reward token_id sender_id amount c)
  pub claim :
      (env : Env) (sender_id : AccountId) (seed_id : SeedId) (c : Contract)
      → P c
      → Holds P (internal_claim_user_reward_by_seed_id env sender_id seed_id c)

-- A farmer that was found, with the same rewards.
pub found-Replaces :
    (account : AccountId) (c : Contract) (farmer' : Farmer) {farmer : Farmer}
    → get_farmer account c ≡ ok farmer
    → farmer'.rewards ≡ farmer.rewards
    → Replaces farmer' account c
unfolding get_farmer
found-Replaces account c farmer' {farmer} found same =
    (farmer, ground (arith, found), same-Poorer farmer' farmer same)

-- Where any farmer may be written and any receipt made, a reward may be paid.
pub pays :
    (P : Contract → Type 0)
    → ((c : Contract) (account : AccountId) (farmer : Farmer)
        → Replaces farmer account c
        → P c
        → P (record c { farmers = insert account farmer c.farmers }))
    → ((c : Contract) (r : Receipt) → P c → P (request r c))
    → (token_id sender_id : AccountId) (amount : Option ℕ) (c : Contract) → P c
    → Holds P (internal_execute_withdraw_reward token_id sender_id amount c)
unfolding internal_execute_withdraw_reward get_farmer
pays P write ask token_id sender_id amount c h =
    Holds-bind _ (expect (lookup sender_id c.farmers) err10_acc_not_registered) _ λ farmer known.
      Holds->>= _ _ (sub_reward token_id (unwrap_or amount 0) farmer) _
        (sub_reward-Poorer token_id (unwrap_or amount 0) farmer)
        λ out p. ask _ _ (write c sender_id out.0 (farmer, ground (arith, known), p) h)

-- The same rewards again.
pub replaced :
    (account : AccountId) (c : Contract) (farmer farmer' : Farmer)
    → Replaces farmer account c
    → farmer'.rewards ≡ farmer.rewards
    → Replaces farmer' account c
replaced account c farmer farmer' (old, known, p) same =
    (old, known, Poorer-trans farmer' farmer old (same-Poorer farmer' farmer same) p)

-- Noting an NFT leaves the rewards alone.
pub add_nft-same :
    (seed_id : SeedId) (token : ContractNftTokenId) (farmer farmer' : Farmer)
    → farmer'.rewards ≡ (add_nft seed_id token farmer).rewards
    → farmer'.rewards ≡ farmer.rewards
unfolding add_nft
add_nft-same seed_id token farmer farmer' same = same
