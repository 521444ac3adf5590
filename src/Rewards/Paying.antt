-- ===== src/Rewards/Paying.antt =====
-- When the loop that withdraws the rewards of a seed's farms succeeds (ref-farming/src/internals.rs, the
-- end of `internal_seed_deposit` and `internal_seed_withdraw`).
use nft_farming.Prelude.{
  ◌≡◌, refl, true, false, Bool-cases, none, some, List, [], ◌∷◌, ◌++◌, ◌||◌, arith, inl, inr,
  Option-cases, ℕ,
}
use nft_farming.Checked.{Result, ok, Succeeds, Succeeds-map}
use nft_farming.Text.{text_eq}
use nft_farming.Map.{Map, lookup, insert, remove, is_some, lookup-insert_self, lookup-remove}
use nft_farming.Map.Set
use nft_farming.Utils.{FarmId, AccountId}
use nft_farming.Farm.{Farm}
use nft_farming.Farmer.{Farmer, sub_reward}
use nft_farming.Farmer.Footprint.{Grown, Grown-refl, Grown-trans, remove_reward-Grown}
use nft_farming.Contract.{Contract, ft_transfer, post_withdraw_reward, request}
use nft_farming.Claims.{get_farmer}
use nft_farming.Rewards.{internal_execute_withdraw_reward, withdraw_rewards}

-- Each farm of a list is there.
abbrev pub AllThere : List FarmId → Map Farm → Type 0
AllThere [] farms = Unit
AllThere (id ∷ ids) farms = (is_some (lookup id farms) ≡ true) × AllThere ids farms

-- Of each token that is not among those seen, `f` has what `farmer` has.
abbrev IsUnpaid : Farmer → List AccountId → Farmer → Type 0
IsUnpaid farmer seen f =
    (t : AccountId) → Set.contains t seen ≡ false → lookup t f.rewards ≡ lookup t farmer.rewards

sub_reward-all :
    (token : AccountId) (farmer : Farmer) (value : ℕ)
    → lookup token farmer.rewards ≡ some value
    → sub_reward token 0 farmer
      ≡ ok (record farmer { rewards = remove token farmer.rewards }, value)
unfolding sub_reward
sub_reward-all token farmer value known = ground (arith, known)

pay_all_of :
    (token sender_id : AccountId) (c : Contract) (f : Farmer) (value : ℕ)
    → lookup sender_id c.farmers ≡ some f
    → lookup token f.rewards ≡ some value
    → internal_execute_withdraw_reward token sender_id none c
      ≡ ok (
          request
            (ft_transfer sender_id value token (post_withdraw_reward token sender_id value))
            (record c {
              farmers = insert sender_id (record f { rewards = remove token f.rewards }) c.farmers;
            }))
unfolding internal_execute_withdraw_reward get_farmer
pay_all_of token sender_id c f value found known =
    rw (found, sub_reward-all token f value known) refl

contains-append :
    (t token : AccountId) (seen : List AccountId)
    → Set.contains t (seen ++ token ∷ []) ≡ (Set.contains t seen || text_eq token t)
unfolding Set.contains
contains-append t token [] = ground arith
contains-append t token (k ∷ seen) = ground (arith, contains-append t token seen)

-- Paying a token leaves those that are still to be paid.
paid-IsUnpaid :
    (farmer f : Farmer) (seen : List AccountId) (token : AccountId)
    → IsUnpaid farmer seen f
    → IsUnpaid farmer (seen ++ token ∷ []) (record f { rewards = remove token f.rewards })
paid-IsUnpaid farmer f seen token h t absent =
    ground (arith, absent, contains-append t token seen, lookup-remove token t f.rewards, h t)

-- The account's farmer has come from `f`, with no more storage.
abbrev pub HasPaid : AccountId → Farmer → Contract → Type 0
HasPaid account f c = (g : Farmer) × (lookup account c.farmers ≡ some g) × Grown 0 0 f g

paid_on :
    (token sender_id : AccountId) (f : Farmer) (m : Result Contract)
    → Succeeds (HasPaid sender_id (record f { rewards = remove token f.rewards })) m
    → Succeeds (HasPaid sender_id f) m
paid_on token sender_id f m h =
    Succeeds-map _ (HasPaid sender_id f) m h
      λ c (g, known, grown). (g, known, Grown-trans (remove_reward-Grown token f) grown)

-- The loop succeeds where each farm is there and the account has the rewards that the loop read.
pub withdraw_rewards-Succeeds :
    (sender_id : AccountId) (farmer f : Farmer) (ids : List FarmId) (seen : List AccountId)
    (c : Contract)
    → AllThere ids c.farms
    → lookup sender_id c.farmers ≡ some f
    → IsUnpaid farmer seen f
    → Succeeds (HasPaid sender_id f) (withdraw_rewards sender_id farmer ids seen c)
unfolding withdraw_rewards
withdraw_rewards-Succeeds sender_id farmer f [] seen c there found h = (f, found, Grown-refl f)
withdraw_rewards-Succeeds sender_id farmer f (id ∷ ids) seen c there found h =
    elim (Option-cases (lookup id c.farms)) [
      | inl missing ↦ cc (missing, there.0)
      | inr (farm, known) ↦
          let token = farm.terms.reward_token in
          rw known (elim (Bool-cases (Set.contains token seen)) [
            | inl e ↦ rw e (withdraw_rewards-Succeeds sender_id farmer f ids seen c there.1 found h)
            | inr e ↦ rw e (elim (Option-cases (lookup token farmer.rewards)) [
              | inl none_left ↦ rw none_left (
                  withdraw_rewards-Succeeds sender_id farmer f ids (seen ++ token ∷ []) c there.1
                    found λ t absent. h t (ground (arith, absent, contains-append t token seen)))
              | inr (value, some_left) ↦
                  rw
                    (
                      some_left,
                      pay_all_of token sender_id c f value found (rw (h token e) some_left),
                    )
                    (paid_on token sender_id f _ (
                      withdraw_rewards-Succeeds sender_id farmer
                        (record f { rewards = remove token f.rewards }) ids (seen ++ token ∷ []) _
                        there.1 (lookup-insert_self sender_id _ c.farmers)
                        (paid-IsUnpaid farmer f seen token h)))
            ])
          ])
    ]
