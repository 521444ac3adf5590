-- ===== src/Machine/Steady.antt =====
-- What calls leave alone that are not the owner's (ref-farming/src/lib.rs, token_receiver.rs, storage_impl.rs):
-- the owner, the farms that there are, the outdated farms and the tables of NFT values.
use nft_farming.Prelude.{ℕ, ◌≡◌, refl, Bool, Option, List, [], ◌∷◌, arith}
use nft_farming.Checked.{Holds}
use nft_farming.Text.{Text, text_eq_iff}
use nft_farming.Map.{Map, lookup, is_some, lookup-insert}
use nft_farming.Utils.{SeedId, FarmId, AccountId, NftBalance}
use nft_farming.Farm.{Farm}
use nft_farming.Farmer.{Farmer, UserRps}
use nft_farming.Contract.{Contract, Env}
use nft_farming.Claims.{
  claim_from_farms, get_seed_wrapped, internal_claim_user_reward_by_seed_id,
  internal_claim_user_reward_by_farm_id,
}
use nft_farming.Rewards.{callback_post_withdraw_reward}
use nft_farming.Receiver.{receive_reward, receive_seed, ft_on_transfer, nft_on_transfer}
use nft_farming.Storage.{
  StorageBalance, storage_deposit, storage_withdraw, storage_unregister, register_new,
  internal_register_account, with_balance,
}
use nft_farming.Stakes.Stability.{IsStable, pays}
use nft_farming.Machine.Invariant.{IsKept}
use nft_farming.Machine.Stable.{IsStable-IsKept}

claim_from_farms-keys :
    (id : FarmId) (now amount : ℕ) (ids : List FarmId) (farms : Map Farm) (farmer : Farmer)
    (rps : UserRps)
    → Holds
        (λ (out : Map Farm × Farmer × UserRps).
          is_some (lookup id out.0) ≡ is_some (lookup id farms))
        (claim_from_farms now amount ids farms farmer rps)
unfolding claim_from_farms
claim_from_farms-keys id now amount [] farms farmer rps = refl
claim_from_farms-keys id now amount (j ∷ ids) farms farmer rps = grind (
  arith,
  claim_from_farms-keys id now amount ids,
  lookup-insert {V = Farm} j id,
  text_eq_iff j id,
)

module _ (o : AccountId) (d : Map Farm) (tables : Map NftBalance) (id : FarmId) (b : Bool) where
  -- The owner, the outdated farms, the tables, and whether a farm is there.
  abbrev pub IsRuled : Contract → Type 0
  IsRuled c =
      (c.owner_id ≡ o)
      × (c.outdated_farms ≡ d)
      × (c.nft_balance_seeds ≡ tables)
      × (is_some (lookup id c.farms) ≡ b)

  pub claim :
      (env : Env) (sender_id : AccountId) (seed_id : SeedId) (c : Contract)
      → IsRuled c
      → Holds IsRuled (internal_claim_user_reward_by_seed_id env sender_id seed_id c)
  unfolding internal_claim_user_reward_by_seed_id get_seed_wrapped
  claim env sender_id seed_id c h = grind (arith, claim_from_farms-keys id)

  stable : IsStable IsRuled
  stable = record {
    write = λ c account farmer rps seeds r h. h;
    upgrade = λ c seeds h. h;
    ask = λ c r plain h. h;
    pay = pays IsRuled (λ c account farmer r h. h) (λ c r h. h);
    claim = claim;
  }

  pub kept : IsKept IsRuled
  kept = IsStable-IsKept IsRuled stable

  pub claim_by_farm :
      (env : Env) (sender_id : AccountId) (farm_id : FarmId) (c : Contract)
      → IsRuled c
      → Holds IsRuled (internal_claim_user_reward_by_farm_id env sender_id farm_id c)
  unfolding internal_claim_user_reward_by_farm_id get_seed_wrapped
  claim_by_farm env sender_id farm_id c h =
      grind (arith, lookup-insert {V = Farm} farm_id id, text_eq_iff farm_id id)

  pub give_back :
      (env : Env) (token_id sender_id : AccountId) (amount : ℕ) (c : Contract)
      → IsRuled c
      → Holds IsRuled (callback_post_withdraw_reward env token_id sender_id amount c)
  unfolding callback_post_withdraw_reward
  give_back env token_id sender_id amount c h = grind arith

  pub reward :
      (env : Env) (amount : ℕ) (farm_id : FarmId) (c : Contract)
      → IsRuled c
      → Holds IsRuled (receive_reward env amount farm_id c)
  unfolding receive_reward
  reward env amount farm_id c h =
      grind (arith, lookup-insert {V = Farm} farm_id id, text_eq_iff farm_id id)

  register :
      (account : AccountId) (amount : ℕ) (c : Contract)
      → IsRuled c
      → Holds IsRuled (internal_register_account account amount c)
  unfolding internal_register_account
  register account amount c h = grind arith

  pub deposit :
      (env : Env) (account : Option AccountId) (only : Option Bool) (c : Contract)
      → IsRuled c
      → Holds
          (λ (out : Contract × StorageBalance). IsRuled out.0)
          (storage_deposit env account only c)
  unfolding storage_deposit with_balance register_new
  deposit env account only c h = grind (arith, register)

  pub withdraw :
      (env : Env) (wanted : Option ℕ) (c : Contract)
      → IsRuled c
      → Holds (λ (out : Contract × StorageBalance). IsRuled out.0) (storage_withdraw env wanted c)
  unfolding storage_withdraw with_balance
  withdraw env wanted c h = grind arith

  pub unregister :
      (env : Env) (force : Option Bool) (c : Contract)
      → IsRuled c
      → Holds (λ (out : Contract × Bool). IsRuled out.0) (storage_unregister env force c)
  unfolding storage_unregister
  unregister env force c h = grind arith

  pub receive_token :
      (env : Env) (sender_id : AccountId) (amount : ℕ) (msg : Text) (c : Contract)
      → IsRuled c
      → Holds (λ (out : Contract × ℕ). IsRuled out.0) (ft_on_transfer env sender_id amount msg c)
  unfolding ft_on_transfer receive_seed
  receive_token env sender_id amount msg c h = grind (
    arith,
    kept.stake env env.predecessor_account_id sender_id amount c h,
    reward env amount msg c h,
  )

  pub receive_nft :
      (env : Env) (sender_id previous_owner_id : AccountId) (token_id msg : Text) (c : Contract)
      → IsRuled c
      → Holds
          (λ (out : Contract × Bool). IsRuled out.0)
          (nft_on_transfer env sender_id previous_owner_id token_id msg c)
  unfolding nft_on_transfer
  receive_nft env sender_id previous_owner_id token_id msg c h =
      grind
        (arith, kept.stake_nft env msg previous_owner_id env.predecessor_account_id token_id c h)
