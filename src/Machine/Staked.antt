-- ===== src/Machine/Staked.antt =====
-- In every reachable state the amount that a seed records is what all farmers hold of it
-- (ref-farming/src/lib.rs, internals.rs, farm_seed.rs, farmer.rs).
use nft_farming.Prelude.{ℕ, refl, Bool, false, Option, arith}
use nft_farming.Checked.{Result, Holds, Holds-both, Holds-map}
use nft_farming.Text.{text_eq_iff}
use nft_farming.Map.{lookup, lookup-insert}
use nft_farming.Utils.{SeedId, FarmId, AccountId, NftBalance, ContractNftTokenId}
use nft_farming.Farm.{FarmTerms}
use nft_farming.FarmSeed.{FarmSeedMetadata, SeedType}
use nft_farming.Contract.{Contract, Env, new_contract}
use nft_farming.Claims.{get_seed, internal_claim_user_reward_by_farm_id}
use nft_farming.Farms.{internal_add_farm}
use nft_farming.Calls
use nft_farming.Calls.Restake.{
  callback_post_withdraw_ft_seed-IsGivenBack, callback_post_withdraw_nft-IsNftGivenBack,
}
use nft_farming.Calls.{assert_owner}
use nft_farming.Calls.Effects.{
  callback_post_withdraw_reward-SameStakes, remove_user_rps_by_farm-SameStakes, given_back_keeps,
  deposit_keeps_stake, nft_given_back_keeps,
}
use nft_farming.Stakes.Sum.{staked, IsStaked}
use nft_farming.Stakes.Conservation.{
  SameStakes, claim_by_seed-SameStakes, claim_by_farm-SameStakes, execute_withdraw-SameStakes,
  withdraw_rewards-SameStakes,
}
use nft_farming.Stakes.Moves.{
  HasGrown, moved, internal_seed_deposit-HasGrown, internal_nft_deposit-HasStaked,
}
use nft_farming.Stakes.Unstake.{
  HasShrunk, internal_seed_withdraw-HasShrunk, internal_nft_withdraw-HasUnstaked,
}
use nft_farming.Stakes.Upkeep.{
  internal_add_farm-IsStaked, internal_remove_farm-IsStaked, receive_reward-IsStaked,
  storage_deposit-IsStaked, storage_withdraw-IsStaked, storage_unregister-IsStaked,
}
use nft_farming.Members.{IsCounted}
use nft_farming.Machine.{IsReachable}
use nft_farming.Machine.Invariant.{IsInvariant, IsKept}
use nft_farming.Machine.Counted.{invariant}
use nft_farming.Machine.Reach.{reachable}

module _ (s : SeedId) where
  -- What the invariant needs beside the stake of `s`.
  abbrev pub HasStake : Contract → Type 0
  HasStake c = IsCounted c × IsStaked s c

  module _ {A : Type 0} (state : A → Contract) (account : AccountId) (c : Contract) (m : Result A)
      (h : HasStake c) (counted : Holds (λ a. IsCounted (state a)) m) where
    same_keeps : Holds (λ a. SameStakes s account c (state a)) m → Holds (λ a. HasStake (state a)) m
    same_keeps same =
        Holds-map _ _ m (Holds-both _ _ m counted same) λ a p. (p.0, ground (arith, h.1, p.1))

    stake_keeps :
        (Q : A → Type 0)
        → Holds Q m
        → ((a : A) → Q a → IsStaked s (state a))
        → Holds (λ a. HasStake (state a)) m
    stake_keeps Q q k = Holds-map _ _ m (Holds-both _ _ m counted q) λ a p. (p.0, k a p.1)

    grown_keeps :
        Holds (λ a. (n : ℕ) × HasGrown s account n c (state a)) m
        → Holds (λ a. HasStake (state a)) m
    grown_keeps grown =
        Holds-map _ _ m (Holds-both _ _ m counted grown) λ a p. (p.0, ground (arith, h.1, p.1.1))

    shrunk_keeps :
        Holds (λ a. (n : ℕ) × HasShrunk s account n c (state a)) m
        → Holds (λ a. HasStake (state a)) m
    shrunk_keeps shrunk =
        Holds-map _ _ m (Holds-both _ _ m counted shrunk) λ a p. (p.0, ground (arith, h.1, p.1.1))

  counted : IsKept IsCounted
  counted = invariant.calls.kept

  upgrade :
      (env : Env) (seed_id : SeedId) (c : Contract)
      → HasStake c
      → Holds HasStake (Calls.force_upgrade_seed env seed_id c)
  unfolding Calls.force_upgrade_seed get_seed
  upgrade env seed_id c h = grind (arith, lookup-insert, text_eq_iff seed_id s)

  kept : IsKept HasStake
  kept = record {
    ask = λ c r plain h. h;
    claim = λ env sender_id seed_id c h.
        same_keeps (λ c'. c') sender_id c _ h (counted.claim env sender_id seed_id c h.0)
          (claim_by_seed-SameStakes s env sender_id seed_id c);
    pay = λ token_id sender_id amount c h.
        same_keeps (λ c'. c') sender_id c _ h (counted.pay token_id sender_id amount c h.0)
          (execute_withdraw-SameStakes s token_id sender_id amount c);
    pay_all = λ sender_id farmer ids seen c h.
        same_keeps (λ c'. c') sender_id c _ h (counted.pay_all sender_id farmer ids seen c h.0)
          (withdraw_rewards-SameStakes s sender_id farmer ids seen c);
    stake = λ env seed_id sender_id amount c h.
        grown_keeps (λ c'. c') sender_id c _ h (counted.stake env seed_id sender_id amount c h.0)
          (Holds-map _ (λ c'. (n : ℕ) × HasGrown s sender_id n c c') _
            (internal_seed_deposit-HasGrown s env seed_id sender_id amount c)
            λ c' grown. (moved s seed_id amount, grown));
    unstake = λ env seed_id sender_id amount c h.
        shrunk_keeps (λ (out : Contract × SeedType). out.0) sender_id c _ h
          (counted.unstake env seed_id sender_id amount c h.0)
          (Holds-map _ (λ (out : Contract × SeedType). (n : ℕ) × HasShrunk s sender_id n c out.0) _
            (internal_seed_withdraw-HasShrunk s env seed_id sender_id amount c)
            λ out shrunk. (moved s seed_id amount, shrunk));
    stake_nft = λ env seed_id sender_id contract_id token_id c h.
        stake_keeps (λ (out : Contract × Bool). out.0) sender_id c _ h
          (counted.stake_nft env seed_id sender_id contract_id token_id c h.0) _
          (internal_nft_deposit-HasStaked s env seed_id sender_id contract_id token_id c)
          λ out q. deposit_keeps_stake s seed_id sender_id _ c out h.1 q.2;
    unstake_nft = λ env seed_id sender_id contract_id token_id c h.
        shrunk_keeps (λ (out : Contract × ContractNftTokenId). out.0) sender_id c _ h
          (counted.unstake_nft env seed_id sender_id contract_id token_id c h.0)
          (Holds-map _
            (λ (out : Contract × ContractNftTokenId). (n : ℕ) × HasShrunk s sender_id n c out.0) _
            (internal_nft_withdraw-HasUnstaked s env seed_id sender_id contract_id token_id c)
            λ out u. (moved s seed_id u.1, u.4));
    give_back_seed = λ env seed_id sender_id amount c h.
        stake_keeps (λ c'. c') sender_id c _ h
          (counted.give_back_seed env seed_id sender_id amount c h.0) _
          (callback_post_withdraw_ft_seed-IsGivenBack s env seed_id sender_id amount c)
          λ c' q. given_back_keeps s env seed_id sender_id amount c c' h.1 q;
    give_back_nft = λ env seed_id sender_id contract_id token_id c h.
        stake_keeps (λ c'. c') sender_id c _ h
          (counted.give_back_nft env seed_id sender_id contract_id token_id c h.0) _
          (callback_post_withdraw_nft-IsNftGivenBack s env seed_id sender_id contract_id token_id c)
          λ c' q. nft_given_back_keeps s env seed_id sender_id _ c c' h.1 q;
    forget_rps = λ env farm_id c h.
        same_keeps (λ (out : Contract × Bool). out.0) env.predecessor_account_id c _ h
          (counted.forget_rps env farm_id c h.0)
          (remove_user_rps_by_farm-SameStakes s env farm_id c);
    upgrade = upgrade;
  }

  init : (owner_id : AccountId) → Holds HasStake (new_contract false owner_id)
  unfolding new_contract staked lookup
  init owner_id = ((tt, refl), refl)

  claim_by_farm :
      (env : Env) (sender_id : AccountId) (farm_id : FarmId) (c : Contract)
      → HasStake c
      → Holds HasStake (internal_claim_user_reward_by_farm_id env sender_id farm_id c)
  claim_by_farm env sender_id farm_id c h =
      same_keeps (λ c'. c') sender_id c _ h
        (invariant.calls.claim_by_farm env sender_id farm_id c h.0)
        (claim_by_farm-SameStakes s env sender_id farm_id c)

  open_farm :
      (terms : FarmTerms) (min_deposit : ℕ) (table : Option NftBalance)
      (metadata : Option FarmSeedMetadata) (c : Contract)
      → HasStake c
      → Holds
          (λ (out : Contract × FarmId). HasStake out.0)
          (internal_add_farm terms min_deposit table metadata c)
  open_farm terms min_deposit table metadata c h =
      Holds-both _ _ _ (invariant.calls.open_farm terms min_deposit table metadata c h.0)
        (internal_add_farm-IsStaked s terms min_deposit table metadata c h.1)

  pub HasStake-IsInvariant : IsInvariant HasStake
  HasStake-IsInvariant = record {
    calls = record {
      kept = kept;
      owner = λ c owner_id h. h;
      claim_by_farm = claim_by_farm;
      open_farm = open_farm;
      close_farm = λ env farm_id c h.
          Holds-both _ _ _ (invariant.calls.close_farm env farm_id c h.0)
            (internal_remove_farm-IsStaked s env farm_id c h.1);
      reward = λ env amount farm_id c h.
          Holds-both _ _ _ (invariant.calls.reward env amount farm_id c h.0)
            (receive_reward-IsStaked s env amount farm_id c h.1);
      deposit = λ env account only c h.
          Holds-both _ _ _ (invariant.calls.deposit env account only c h.0)
            (storage_deposit-IsStaked s env account only c h.1);
      withdraw = λ env wanted c h.
          Holds-both _ _ _ (invariant.calls.withdraw env wanted c h.0)
            (storage_withdraw-IsStaked s env wanted c h.1);
      unregister = λ env force c h.
          Holds-both _ _ _ (invariant.calls.unregister env force c h.0)
            (storage_unregister-IsStaked s env force c h.0.0 h.1);
    };
    init = init;
    ready = λ c h. h;
    give_back_reward = λ env token_id sender_id amount c h.
        same_keeps (λ c'. c') sender_id c _ h
          (invariant.give_back_reward env token_id sender_id amount c h.0)
          (callback_post_withdraw_reward-SameStakes s env token_id sender_id amount c);
  }

  -- Whatever calls are made, by whom, in what order and with what results of promises: in the
  -- state that they reach the amount that a seed records is the sum of what all farmers hold of
  -- it.
  pub reachable-IsStaked : {c : Contract} → IsReachable c → IsStaked s c
  reachable-IsStaked r = (reachable HasStake HasStake-IsInvariant r).1
