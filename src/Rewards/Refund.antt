-- ===== src/Rewards/Refund.antt =====
-- A withdrawal of a reward whose transfer fails is undone (ref-farming/src/lib.rs,
-- `internal_execute_withdraw_reward` and `callback_post_withdraw_reward`).
use nft_farming.Prelude.{ℕ, ◌<◌, ◌≡◌, refl, Option, some, [], ◌∷◌, ◌++◌, arith}
use nft_farming.Checked.{
  Holds, Holds->>=, Holds-bind, Succeeds, Succeeds->>=, expect, checked_add, checked_sub, u128_mod,
  err10_acc_not_registered,
}
use nft_farming.Text.{text_eq_iff, text_eq_refl}
use nft_farming.Map.{lookup, lookup-insert, lookup-remove, lookup-insert_self, unwrap_or}
use nft_farming.Utils.{AccountId}
use nft_farming.Farmer.{Farmer, add_reward, sub_reward}
use nft_farming.Contract.{Contract, Env, failed, ft_transfer, post_withdraw_reward}
use nft_farming.Claims.{get_farmer, get_farmer_default, internal_get_reward}
use nft_farming.Claims.Growth.{balance}
use nft_farming.Rewards.{
  internal_execute_withdraw_reward, callback_post_withdraw_reward, only_result,
}

-- What was subtracted can be added again, and every balance is then as before.
pub sub_reward-add_reward :
    (token j : AccountId) (amount : ℕ) (farmer : Farmer)
    → balance token farmer < u128_mod
    → Holds
        (λ (out : Farmer × ℕ).
          Succeeds (λ f. balance j f ≡ balance j farmer) (add_reward token out.1 out.0))
        (sub_reward token amount farmer)
unfolding sub_reward add_reward checked_sub checked_add
sub_reward-add_reward token j amount farmer small =
    grind (arith, lookup-insert, lookup-remove, text_eq_iff token j, text_eq_refl token)

callback_failed :
    (env : Env) (token_id j sender_id : AccountId) (amount : ℕ) (c : Contract) (farmer : Farmer)
    (k : ℕ)
    → env.promise_results ≡ failed ∷ []
    → lookup sender_id c.farmers ≡ some farmer
    → Succeeds (λ f. balance j f ≡ k) (add_reward token_id amount farmer)
    → Succeeds
        (λ (c' : Contract). internal_get_reward sender_id j c' ≡ k)
        (callback_post_withdraw_reward env token_id sender_id amount c)
unfolding callback_post_withdraw_reward only_result get_farmer internal_get_reward
    get_farmer_default
callback_failed env token_id j sender_id amount c farmer k only known added =
    rw (only, known)
      (Succeeds->>= _ _ (add_reward token_id amount farmer) _ added
        λ f h. ground (arith, h, lookup-insert_self sender_id f c.farmers))

-- A withdrawal of a reward whose balance fits 128 bits, if it does not panic, asks for a transfer
-- of what it takes, and when that transfer fails its callback succeeds and every reward balance of
-- the account is as before the withdrawal.
pub withdraw-callback_failed :
    (env : Env) (token_id j sender_id : AccountId) (amount : Option ℕ) (c : Contract)
    → env.promise_results ≡ failed ∷ []
    → internal_get_reward sender_id token_id c < u128_mod
    → Holds
        (λ (c' : Contract).
          (taken : ℕ) × (c'.receipts
            ≡ c.receipts
              ++ ft_transfer sender_id taken token_id
                  (post_withdraw_reward token_id sender_id taken)
                ∷ [])
          × Succeeds
              (λ (c'' : Contract).
                internal_get_reward sender_id j c'' ≡ internal_get_reward sender_id j c)
              (callback_post_withdraw_reward env token_id sender_id taken c'))
        (internal_execute_withdraw_reward token_id sender_id amount c)
unfolding internal_execute_withdraw_reward get_farmer internal_get_reward get_farmer_default
withdraw-callback_failed env token_id j sender_id amount c only small =
    Holds-bind _ (expect (lookup sender_id c.farmers) err10_acc_not_registered) _ λ farmer known.
      Holds->>= _ _ (sub_reward token_id (unwrap_or amount 0) farmer) _
        (sub_reward-add_reward token_id j (unwrap_or amount 0) farmer
          (ground (arith, known, small)))
        λ out again. (
          out.1,
          refl,
          callback_failed env token_id j sender_id out.1 _ out.0 _ only
              (lookup-insert_self sender_id out.0 c.farmers) (ground (arith, known, again)),
        )
