-- ===== src/Claims/Live.antt =====
-- When a claim over all farms of a seed succeeds (ref-farming/src/internals.rs,
-- `internal_claim_user_reward_by_seed_id`): no farm, no word and no count is in its way.
use nft_farming.Prelude.{ℕ, ◌+◌, ◌<◌, ◌≡◌, ◌≢◌, refl, false, List, [], ◌∷◌, arith, length}
use nft_farming.Checked.{Succeeds, Succeeds->>=, Succeeds-map, u32_mod, u128_mod}
use nft_farming.Text.{text_eq_iff}
use nft_farming.Map.{Map, insert, lookup-insert_ne}
use nft_farming.Map.Set
use nft_farming.Utils.{FarmId, AccountId}
use nft_farming.Farm.{Farm}
use nft_farming.Farmer.{Farmer, UserRps, get_rps}
use nft_farming.Claims.{claim_user_reward_from_farm, claim_from_farms}
use nft_farming.Claims.Growth.{balance}
use nft_farming.Claims.Frame.{FarmClaim}
use nft_farming.Funds.{held_by_farms}
use nft_farming.Funds.Totals.{held_by_farms-insert}
use nft_farming.Claims.OneFarm.{IsClaimable, Leaves, claim_user_reward_from_farm-Leaves}

-- Each farm of a list, which names none twice.
abbrev pub AllClaimable : ℕ → ℕ → Map ℕ → Map Farm → UserRps → List FarmId → Type 0
AllClaimable now amount stakes farms rps [] = Unit
AllClaimable now amount stakes farms rps (id ∷ rest) =
    IsClaimable now amount stakes farms rps id
    × (Set.contains id rest ≡ false)
    × AllClaimable now amount stakes farms rps rest

-- Claiming from other farms leaves a farm claimable.
pub still_claimable :
    (now amount : ℕ) (stakes : Map ℕ) (farms : Map Farm) (rps rps' : UserRps) (id : FarmId)
    (farm : Farm) (ids : List FarmId)
    → Set.contains id ids ≡ false
    → ((j : FarmId) → id ≢ j → get_rps j rps' ≡ get_rps j rps)
    → AllClaimable now amount stakes farms rps ids
    → AllClaimable now amount stakes (insert id farm farms) rps' ids
unfolding Set.contains
still_claimable now amount stakes farms rps rps' id farm [] apart same h = tt
still_claimable now amount stakes farms rps rps' id farm (j ∷ ids) apart same h =
    let k = h.0 in
    let ne : id ≢ j = λ e. ground (arith, apart, e, text_eq_iff j id) in
    let unseen : get_rps k.farm.farm_id rps' ≡ get_rps k.farm.farm_id rps =
      rw k.named (same j ne) in
    (
      record {
        farm = k.farm;
        there = ground (arith, lookup-insert_ne id j farm farms ne, k.there);
        named = k.named;
        live = k.live;
        before = k.before;
        later = k.later;
        mine = k.mine;
        staked = k.staked;
        some_staked = k.some_staked;
        whole = rw unseen k.whole;
        backed = rw unseen k.backed;
        below = rw unseen k.below;
      },
      h.1,
      still_claimable now amount stakes farms rps rps' id farm ids (ground (arith, apart)) same h.2,
    )

-- The loop over the farms succeeds.
pub claim_from_farms-Succeeds :
    (t : AccountId) (now amount : ℕ) (ids : List FarmId) (farms : Map Farm) (farmer : Farmer)
    (rps : UserRps)
    → AllClaimable now amount farmer.seeds farms rps ids
    → ((token : AccountId) → balance token farmer + held_by_farms token farms < u128_mod)
    → farmer.rps_count + length ids < u32_mod
    → Succeeds
        (λ (out : Map Farm × Farmer × UserRps).
          balance t out.1 + held_by_farms t out.0 ≡ balance t farmer + held_by_farms t farms)
        (claim_from_farms now amount ids farms farmer rps)
unfolding claim_from_farms
claim_from_farms-Succeeds t now amount [] farms farmer rps h room count = refl
claim_from_farms-Succeeds t now amount (id ∷ rest) farms farmer rps h room count =
    let k = h.0 in
    rw k.there (
      Succeeds->>= (Leaves farmer rps k.farm) _
        (claim_user_reward_from_farm now amount k.farm farmer rps) _
        (claim_user_reward_from_farm-Leaves now amount farms rps id farmer k room
          (omega (arith, count)))
        λ (out : FarmClaim) l.
          Succeeds-map _
            (λ (done : Map Farm × Farmer × UserRps).
              balance t done.1 + held_by_farms t done.0 ≡ balance t farmer + held_by_farms t farms)
            _
            (claim_from_farms-Succeeds t now amount rest (insert id out.0 farms) out.1 out.2
              (rw l.seeds (
                still_claimable now amount farmer.seeds farms rps out.2 id out.0 rest h.1
                  (λ j ne. l.others j (rw k.named ne)) h.2))
              (λ token. ground (
                arith,
                room token,
                l.paid token,
                k.there,
                held_by_farms-insert token id out.0 farms,
              ))
              (omega (arith, count, l.count)))
            λ done e. ground (arith, e, l.paid t, k.there, held_by_farms-insert t id out.0 farms))
