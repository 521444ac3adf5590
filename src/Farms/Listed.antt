-- ===== src/Farms/Listed.antt =====
-- Which operations leave the list of a seed's farms, and the farms that are there, alone
-- (ref-farming/src/internals.rs, lib.rs).
use nft_farming.Prelude.{ℕ, ◌≡◌, refl, Option, none, some, List, [], ◌∷◌, arith}
use nft_farming.Checked.{Result, ok, err, Holds, checked_add, checked_sub}
use nft_farming.Text.{text_eq_iff}
use nft_farming.Map.{Map, lookup, insert, lookup-insert, is_some}
use nft_farming.Utils.{SeedId, FarmId, AccountId}
use nft_farming.Farm.{Farm}
use nft_farming.FarmSeed.{FarmSeed, add_amount, sub_amount}
use nft_farming.Farmer.{Farmer, UserRps}
use nft_farming.Contract.{Contract, Env}
use nft_farming.Claims.{
  get_farmer, get_seed_wrapped, claim_from_farms, internal_claim_user_reward_by_seed_id,
  internal_claim_user_reward_by_farm_id,
}
use nft_farming.Rewards.{internal_execute_withdraw_reward, withdraw_rewards}

-- the farms that a seed lists
abbrev pub farms_of : Option FarmSeed → List FarmId
farms_of none = []
farms_of (some seed) = seed.farms

pub add_amount-farms :
    (n : ℕ) (seed : FarmSeed)
    → Holds (λ (seed' : FarmSeed). seed'.farms ≡ seed.farms) (add_amount n seed)
unfolding add_amount checked_add
add_amount-farms n seed = ground arith

pub sub_amount-farms :
    (n : ℕ) (seed : FarmSeed)
    → Holds (λ (out : FarmSeed × ℕ). out.0.farms ≡ seed.farms) (sub_amount n seed)
unfolding sub_amount checked_sub
sub_amount-farms n seed = ground arith

module _ (s : SeedId) (id : FarmId) where
  -- The list of the farms of `s` is as before, and the farm `id` is there if it was.
  abbrev pub SameFarms : Contract → Contract → Type 0
  SameFarms c c' =
      (farms_of (lookup s c'.seeds) ≡ farms_of (lookup s c.seeds))
      × (is_some (lookup id c'.farms) ≡ is_some (lookup id c.farms))

  pub SameFarms-trans : (c c₁ c₂ : Contract) → SameFarms c c₁ → SameFarms c₁ c₂ → SameFarms c c₂
  SameFarms-trans c c₁ c₂ p q = (cc (p.0, q.0), cc (p.1, q.1))

  claim_from_farms-keys :
      (now amount : ℕ) (ids : List FarmId) (farms : Map Farm) (farmer : Farmer) (rps : UserRps)
      → Holds
          (λ (out : Map Farm × Farmer × UserRps).
            is_some (lookup id out.0) ≡ is_some (lookup id farms))
          (claim_from_farms now amount ids farms farmer rps)
  unfolding claim_from_farms
  claim_from_farms-keys now amount [] farms farmer rps = refl
  claim_from_farms-keys now amount (farm_id ∷ rest) farms farmer rps =
      grind (arith, claim_from_farms-keys now amount rest, lookup-insert, text_eq_iff farm_id id)

  pub claim_by_seed-SameFarms :
      (env : Env) (sender_id : AccountId) (seed_id : SeedId) (c : Contract)
      → Holds (SameFarms c) (internal_claim_user_reward_by_seed_id env sender_id seed_id c)
  unfolding internal_claim_user_reward_by_seed_id get_farmer get_seed_wrapped
  claim_by_seed-SameFarms env sender_id seed_id c =
      grind (arith, claim_from_farms-keys, lookup-insert, text_eq_iff seed_id s)

  pub claim_by_farm-SameFarms :
      (env : Env) (sender_id : AccountId) (farm_id : FarmId) (c : Contract)
      → Holds (SameFarms c) (internal_claim_user_reward_by_farm_id env sender_id farm_id c)
  unfolding internal_claim_user_reward_by_farm_id get_farmer get_seed_wrapped
  claim_by_farm-SameFarms env sender_id farm_id c =
      grind (arith, lookup-insert, text_eq_iff farm_id id)

  pub execute_withdraw-SameFarms :
      (token_id sender_id : AccountId) (amount : Option ℕ) (c : Contract)
      → Holds (SameFarms c) (internal_execute_withdraw_reward token_id sender_id amount c)
  unfolding internal_execute_withdraw_reward
  execute_withdraw-SameFarms token_id sender_id amount c = ground arith

  pub withdraw_rewards-SameFarms :
      (sender_id : AccountId) (farmer : Farmer) (ids : List FarmId) (seen : List AccountId)
      (c : Contract)
      → Holds (SameFarms c) (withdraw_rewards sender_id farmer ids seen c)
  unfolding withdraw_rewards
  withdraw_rewards-SameFarms sender_id farmer [] seen c = (refl, refl)
  withdraw_rewards-SameFarms sender_id farmer (farm_id ∷ rest) seen c =
      grind (arith, execute_withdraw-SameFarms, withdraw_rewards-SameFarms sender_id farmer rest)

  -- Writing a seed with the same list, and then anything that leaves the farms alone.
  pub stored-SameFarms :
      (seed_id : SeedId) (c c₁ : Contract) (farmers : Map Farmer) (rps : Map UserRps)
      (seed' : FarmSeed)
      → SameFarms c c₁
      → (farms_of (lookup seed_id c₁.seeds) ≡ seed'.farms)
      → SameFarms c
          (record c₁ { farmers = farmers; user_rps = rps; seeds = insert seed_id seed' c₁.seeds })
  stored-SameFarms seed_id c c₁ farmers rps seed' same list =
      ground (arith, lookup-insert seed_id s seed' c₁.seeds, text_eq_iff seed_id s)

  pub settled-SameFarms :
      (c c₁ : Contract) (m : Result Contract)
      → SameFarms c c₁
      → Holds (SameFarms c₁) m
      → Holds (SameFarms c) m
  settled-SameFarms c c₁ (ok c₂) p q = SameFarms-trans c c₁ c₂ p q
  settled-SameFarms c c₁ (err e) p q = tt
