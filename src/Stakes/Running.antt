-- ===== src/Stakes/Running.antt =====
-- When the steps of a deposit and of a withdrawal of a seed succeed (ref-farming/src/internals.rs,
-- farm_seed.rs, farmer.rs).
use nft_farming.Prelude.{
  ℕ, ◌+◌, ◌≤◌, ◌<◌, ◌≡◌, refl, List, [], ◌∷◌, arith, ◌==◌, Bool-cases, inl, inr,
}
use nft_farming.Checked.{Succeeds, Succeeds->>=, Succeeds-map, checked_add, checked_sub, u128_mod}
use nft_farming.Map.{lookup-insert_self}
use nft_farming.Utils.{SeedId, FarmId, AccountId}
use nft_farming.FarmSeed.{FarmSeed, add_amount, sub_amount}
use nft_farming.Farmer.{Farmer, UserRps, seed_balance, add_seed, sub_seed, remove_rps}
use nft_farming.Farmer.Rps.{IsRpsCounted, remove_rps-IsRpsCounted}
use nft_farming.Contract.{Contract, rps_of}
use nft_farming.Rewards.Paying.{AllThere, withdraw_rewards-Succeeds}
use nft_farming.Stakes.{settle_withdrawal, remove_all_rps}

pub add_amount-Succeeds :
    (amount : ℕ) (seed : FarmSeed)
    → seed.amount + amount < u128_mod
    → Succeeds (λ (seed' : FarmSeed). seed'.farms ≡ seed.farms) (add_amount amount seed)
unfolding add_amount checked_add
add_amount-Succeeds amount seed h = ground arith

pub add_seed-Succeeds :
    (seed_id : SeedId) (amount : ℕ) (farmer : Farmer)
    → amount + seed_balance seed_id farmer < u128_mod
    → Succeeds (λ _. Unit {0}) (add_seed seed_id amount farmer)
unfolding add_seed checked_add
add_seed-Succeeds seed_id amount farmer h = ground arith

pub sub_amount-Succeeds :
    (amount : ℕ) (seed : FarmSeed)
    → amount ≤ seed.amount
    → Succeeds
        (λ (out : FarmSeed × ℕ).
          (out.0.farms ≡ seed.farms)
          × (out.0.seed_type ≡ seed.seed_type)
          × (out.1 + amount ≡ seed.amount))
        (sub_amount amount seed)
unfolding sub_amount checked_sub
sub_amount-Succeeds amount seed h = ground arith

pub sub_seed-Succeeds :
    (seed_id : SeedId) (amount : ℕ) (farmer : Farmer)
    → 0 < amount
    → amount ≤ seed_balance seed_id farmer
    → Succeeds
        (λ (out : Farmer × ℕ). out.0.rps_count ≡ farmer.rps_count)
        (sub_seed seed_id amount farmer)
unfolding sub_seed checked_sub
sub_seed-Succeeds seed_id amount farmer pos le = ground arith

remove_all_rps-Succeeds :
    (ids : List FarmId) (farmer : Farmer) (rps : UserRps)
    → IsRpsCounted (farmer, rps)
    → Succeeds (λ _. Unit {0}) (remove_all_rps ids farmer rps)
unfolding remove_all_rps
remove_all_rps-Succeeds [] farmer rps h = tt
remove_all_rps-Succeeds (id ∷ ids) farmer rps h =
    Succeeds->>= _ _ (remove_rps id farmer rps) _ (remove_rps-IsRpsCounted id id farmer rps h)
      λ (out : Farmer × UserRps) counted. remove_all_rps-Succeeds ids out.0 out.1 counted.0

pub settle_withdrawal-Succeeds :
    (seed_id : SeedId) (sender_id : AccountId) (remain : ℕ) (farmer : Farmer) (seed : FarmSeed)
    (c : Contract)
    → AllThere seed.farms c.farms
    → IsRpsCounted (farmer, rps_of sender_id c)
    → Succeeds (λ _. Unit {0}) (settle_withdrawal seed_id sender_id remain farmer seed c)
unfolding settle_withdrawal
settle_withdrawal-Succeeds seed_id sender_id remain farmer seed c there counted =
    elim (Bool-cases (remain == 0)) [
      | inl e ↦ rw e (
          Succeeds->>= _ _ (remove_all_rps seed.farms farmer (rps_of sender_id c)) _
            (remove_all_rps-Succeeds seed.farms farmer (rps_of sender_id c) counted)
            λ (out : Farmer × UserRps) _.
              Succeeds-map _ (λ _. Unit {0}) _
                (withdraw_rewards-Succeeds sender_id out.0 out.0 seed.farms [] _ there
                  (lookup-insert_self sender_id out.0 c.farmers) (λ t _. refl))
                λ _ _. tt)
      | inr e ↦ rw e (
          Succeeds-map _ (λ _. Unit {0}) _
            (withdraw_rewards-Succeeds sender_id farmer farmer seed.farms [] _ there
              (lookup-insert_self sender_id farmer c.farmers) (λ t _. refl))
            λ _ _. tt)
    ]
