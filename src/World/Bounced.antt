-- ===== src/World/Bounced.antt =====
-- A reward whose transfer fails comes back (ref-farming/src/lib.rs, `callback_post_withdraw_reward`),
-- whatever happened while it was in flight, as long as the account is registered.
use nft_farming.Prelude.{Option-cases, inl, inr, ℕ, ◌+◌, ◌<◌, ◌≡◌, some, List, ◌∷◌, ◌++◌, arith}
use nft_farming.Checked.{ok, checked_add, u128_mod}
use nft_farming.Map.{lookup, insert, lookup-insert_self}
use nft_farming.Text.{text_eq_refl}
use nft_farming.Utils.{AccountId}
use nft_farming.Farmer.{Farmer, add_reward}
use nft_farming.Contract.{Env, Receipt, ft_transfer, failed, post_withdraw_reward}
use nft_farming.Claims.{get_farmer}
use nft_farming.Claims.Growth.{balance}
use nft_farming.Rewards.{callback_post_withdraw_reward, only_result}
use nft_farming.Machine.{execute}
use nft_farming.Funds.Totals.{balance-le}
use nft_farming.World.{World, settle, invoke, conclude, IsPossible}
use nft_farming.World.Solvent.{possible-IsSolvent, taken}

-- Adding a reward that fits.
add_reward-fits :
    (token : AccountId) (n : ℕ) (farmer : Farmer)
    → balance token farmer + n < u128_mod
    → (farmer' : Farmer) × (add_reward token n farmer ≡ ok farmer')
      × (balance token farmer' ≡ balance token farmer + n)
unfolding add_reward checked_add
add_reward-fits token n farmer fits = elim (Option-cases (lookup token farmer.rewards)) [
  | inl missing ↦
      let farmer' : Farmer = record farmer { rewards = insert token n farmer.rewards } in
      (
        farmer',
        ground (arith, missing),
        ground (arith, missing, lookup-insert_self token n farmer.rewards),
      )
  | inr (x, there) ↦
      let farmer' : Farmer = record farmer { rewards = insert token (x + n) farmer.rewards } in
      (
        farmer',
        ground (arith, there, fits),
        ground (arith, there, lookup-insert_self token (x + n) farmer.rewards),
      )
]

-- A farmer of the account, with so much of the token.
abbrev pub HasReward : AccountId → AccountId → ℕ → World → Type 0
HasReward token account n w =
    (farmer : Farmer) × (lookup account w.contract.farmers ≡ some farmer)
    × (balance token farmer ≡ n)

-- In a possible world, when the transfer of a reward that is in flight fails and the account is
-- registered, the callback succeeds, and the account's balance of the token grows by the amount.
pub conclude-HasReward :
    (env : Env) (w : World) (before after : List Receipt)
    (receiver contract_id token account : AccountId) (amount n : ℕ) (farmer : Farmer)
    → IsPossible w
    → w.in_flight
      ≡ before
        ++ ft_transfer receiver amount contract_id (post_withdraw_reward token account n) ∷ after
    → lookup account w.contract.farmers ≡ some farmer
    → HasReward token account (balance token farmer + n) (
        conclude env failed
          (ft_transfer receiver amount contract_id (post_withdraw_reward token account n))
          (record w { in_flight = before ++ after }))
unfolding conclude invoke execute callback_post_withdraw_reward only_result get_farmer settle
conclude-HasReward env w before after receiver contract_id token account amount n farmer p flies
      known =
    let s = possible-IsSolvent token p in
    let r = ft_transfer receiver amount contract_id (post_withdraw_reward token account n) in
    let room : balance token farmer + n < u128_mod = ground (
      arith,
      s.funded,
      known,
      balance-le token account w.contract.farmers,
      text_eq_refl token,
      taken token before r after w.in_flight flies,
    ) in
    let (farmer', done, more) = add_reward-fits token n farmer room in
    rw (known, done) (farmer', lookup-insert_self account farmer' w.contract.farmers, more)
