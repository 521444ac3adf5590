-- ===== src/World/Solvent.antt =====
-- In every possible world the contract can pay what it answers for (ref-farming/src/lib.rs, farm.rs,
-- token_receiver.rs).
use nft_farming.Prelude.{
  ℕ, ◌+◌, ◌≤◌, ◌≡◌, ◌≢◌, refl, false, List, [], ◌∷◌, ◌++◌, arith, if◌then◌else◌,
}
use nft_farming.Checked.{Result, ok, err, Holds, Holds-eq-ok}
use nft_farming.Map.{lookup}
use nft_farming.Text.{text_eq}
use nft_farming.Utils.{AccountId}
use nft_farming.Contract.{
  Contract, Env, Callback, successful, failed, Receipt, transfer, ft_transfer, nft_transfer,
  post_withdraw_reward, post_withdraw_ft_seed, post_withdraw_nft, new_contract,
}
use nft_farming.Claims.{get_farmer}
use nft_farming.Claims.Growth.{add_reward-balance}
use nft_farming.Rewards.{callback_post_withdraw_reward, only_result}
use nft_farming.Machine.{Call, execute}
use nft_farming.Machine.Reach.{execute_keeps}
use nft_farming.Funds.{earned, held_by_farms, sends, sent, commits, committed, gives_back, IsFunded}
use nft_farming.Funds.Totals.{earned-insert, committed-append}
use nft_farming.Funds.Keeps.{calls_keep}
use nft_farming.World.{
  World, settle, invoke, conclude, call_of, with_result, IsDirect, Step, called, arrived, bounced,
  IsPossible, started, next,
}

module _ (t : AccountId) where
  -- What has gone out of the contract's hands, for good or not.
  abbrev gone : World → ℕ
  gone w = committed t w.in_flight + sent t w.delivered

  -- All that was earned and not paid, is held, is in flight, and has been delivered, was received.
  pub record IsSolvent (w : World) : Type 0 where
    pub idle : w.contract.receipts ≡ []
    pub funded : IsFunded t (gone w) w.contract

  settle-IsSolvent :
      (m : Result Contract) (w : World)
      → IsSolvent w
      → Holds (IsFunded t (gone w)) m
      → IsSolvent (settle m w)
  unfolding settle committed
  settle-IsSolvent (err e) w s h = s
  settle-IsSolvent (ok c) w s h = record {
    idle = refl;
    funded = omega (arith, h, committed-append t w.in_flight c.receipts);
  }

  invoke-IsSolvent :
      (env : Env) (call : Call) (w : World)
      → IsDirect call
      → IsSolvent w
      → IsSolvent (invoke env call w)
  unfolding invoke
  invoke-IsSolvent env call w direct s = settle-IsSolvent (execute env call w.contract) w s (
      execute_keeps (IsFunded t (gone w)) (calls_keep t (gone w)) env call w.contract
        (λ token_id sender_id amount e. absurd (rw e at direct)) s.funded)

  -- Giving a reward back moves it from what was in flight to what is earned.
  give_back_lem :
      (env : Env) (token_id sender_id : AccountId) (amount g : ℕ) (c : Contract)
      → IsFunded t (g + (if text_eq token_id t then amount else 0)) c
      → Holds (IsFunded t g) (callback_post_withdraw_reward env token_id sender_id amount c)
  unfolding callback_post_withdraw_reward get_farmer
  give_back_lem env token_id sender_id amount g c h =
      grind (arith, add_reward-balance t, earned-insert t)

  -- A transfer that succeeded gives nothing back.
  successful_lem :
      (env : Env) (token_id sender_id : AccountId) (amount g : ℕ) (c : Contract)
      → IsFunded t g c
      → Holds
          (IsFunded t g)
          (callback_post_withdraw_reward (with_result successful env) token_id sender_id amount c)
  unfolding callback_post_withdraw_reward only_result
  successful_lem env token_id sender_id amount g c h = h

  init :
      (owner_id : AccountId)
      → Holds
          (λ c. IsSolvent (record { contract = c; in_flight = []; delivered = [] }))
          (new_contract false owner_id)
  unfolding new_contract earned held_by_farms committed sent lookup
  init owner_id = record { idle = refl; funded = omega arith }

  -- The callbacks of stakes keep what all calls keep.
  other_callback :
      (env : Env) (call : Call) (w : World)
      → ((token_id sender_id : AccountId) (amount : ℕ)
          → call ≢ Call.callback_post_withdraw_reward token_id sender_id amount)
      → IsSolvent w
      → IsSolvent (invoke env call w)
  unfolding invoke
  other_callback env call w other s = settle-IsSolvent (execute env call w.contract) w s (
      execute_keeps (IsFunded t (gone w)) (calls_keep t (gone w)) env call w.contract
        (λ token_id sender_id amount e. absurd (other token_id sender_id amount e)) s.funded)

  call_back_successful :
      (env : Env) (callback : Callback) (w : World)
      → IsSolvent w
      → IsSolvent (invoke (with_result successful env) (call_of callback) w)
  unfolding invoke execute
  call_back_successful env (post_withdraw_reward token a m) w s =
      settle-IsSolvent _ w s (successful_lem env token a m (gone w) w.contract s.funded)
  call_back_successful env (post_withdraw_ft_seed seed_id a m) w s =
      other_callback (with_result successful env) (Call.callback_post_withdraw_ft_seed seed_id a m)
        w (λ _ _ _ e. cc e) s
  call_back_successful env (post_withdraw_nft seed_id a m k) w s =
      other_callback (with_result successful env) (Call.callback_post_withdraw_nft seed_id a m k) w
        (λ _ _ _ e. cc e) s

  fewer : (c : Contract) (g h : ℕ) → g ≤ h → IsFunded t h c → IsFunded t g c
  fewer c g h le funded = omega (arith, le, funded)

  call_back_failed :
      (env : Env) (callback : Callback) (w : World)
      → w.contract.receipts ≡ []
      → IsFunded t (gone w + gives_back t callback) w.contract
      → IsSolvent (invoke (with_result failed env) (call_of callback) w)
  unfolding invoke execute
  call_back_failed env (post_withdraw_reward token a m) w idle h =
      settle-IsSolvent _ w
        (record { idle = idle; funded = fewer w.contract (gone w) _ (omega arith) h })
        (give_back_lem (with_result failed env) token a m (gone w) w.contract h)
  call_back_failed env (post_withdraw_ft_seed seed_id a m) w idle h =
      other_callback (with_result failed env) (Call.callback_post_withdraw_ft_seed seed_id a m) w
        (λ _ _ _ e. cc e)
        (record { idle = idle; funded = fewer w.contract (gone w) _ (omega arith) h })
  call_back_failed env (post_withdraw_nft seed_id a m k) w idle h =
      other_callback (with_result failed env) (Call.callback_post_withdraw_nft seed_id a m k) w
        (λ _ _ _ e. cc e)
        (record { idle = idle; funded = fewer w.contract (gone w) _ (omega arith) h })

  pub taken :
      (before : List Receipt) (r : Receipt) (after rs : List Receipt)
      → rs ≡ before ++ r ∷ after
      → committed t rs ≡ committed t (before ++ after) + commits t r
  unfolding committed
  taken before r after rs e =
      rw e (omega (arith, committed-append t before (r ∷ after), committed-append t before after))

  sends-le : (r : Receipt) → sends t r ≤ commits t r
  sends-le (transfer account n) = omega arith
  sends-le (ft_transfer account n id (post_withdraw_reward token a m)) = omega arith
  sends-le (ft_transfer account n id (post_withdraw_ft_seed seed_id a m)) = omega arith
  sends-le (ft_transfer account n id (post_withdraw_nft seed_id a m k)) = omega arith
  sends-le (nft_transfer account n id k) = omega arith

  conclude_successful :
      (env : Env) (r : Receipt) (w : World) → IsSolvent w → IsSolvent (conclude env successful r w)
  unfolding conclude
  conclude_successful env (transfer account n) w s = s
  conclude_successful env (ft_transfer account n id k) w s = call_back_successful env k w s
  conclude_successful env (nft_transfer account n id k) w s = call_back_successful env k w s

  conclude_failed :
      (env : Env) (r : Receipt) (w : World)
      → w.contract.receipts ≡ []
      → IsFunded t (gone w + commits t r) w.contract
      → IsSolvent (conclude env failed r w)
  unfolding conclude
  conclude_failed env (transfer account n) w idle h = record {
    idle = idle;
    funded = fewer w.contract (gone w) _ (omega arith) h;
  }
  conclude_failed env (ft_transfer account n id k) w idle h =
      call_back_failed env k w idle (fewer w.contract (gone w + gives_back t k) _ (omega arith) h)
  conclude_failed env (nft_transfer account n id k) w idle h =
      call_back_failed env k w idle (fewer w.contract (gone w + gives_back t k) _ (omega arith) h)

  Step-IsSolvent : {w w' : World} → Step w w' → IsSolvent w → IsSolvent w'
  unfolding sent
  Step-IsSolvent (called env call direct) s = invoke-IsSolvent env call _ direct s
  Step-IsSolvent {w} (arrived env before r after e) s = conclude_successful env r _ (record {
    idle = s.idle;
    funded = omega (arith, s.funded, taken before r after w.in_flight e, sends-le r);
  })
  Step-IsSolvent {w} (bounced env before r after e) s =
      conclude_failed env r _ s.idle (omega (arith, s.funded, taken before r after w.in_flight e))

  -- Whatever calls are made and in whatever order the transfers of the token contracts succeed or
  -- fail between them: of every reward token, what farmers have earned, what farms hold, what is
  -- in flight and what has been delivered are together at most what `reward_info` says was
  -- received, and that fits 128 bits.
  pub possible-IsSolvent : {w : World} → IsPossible w → IsSolvent w
  possible-IsSolvent (started owner_id e) = Holds-eq-ok _ (init owner_id) e
  possible-IsSolvent (next p step) = Step-IsSolvent step (possible-IsSolvent p)
