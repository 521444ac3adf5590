-- ===== src/Claims/Due.antt =====
-- What a claim over the farms of a seed pays (ref-farming/src/internals.rs): the share that has accrued
-- in each farm since the farmer's recorded rps, which is then the farm's own.
use nft_farming.Prelude.{
  ℕ, ◌+◌, ◌≡◌, ◌≢◌, refl, Bool, true, false, Bool-cases, inl, inr, Option, none, some, List, [],
  ◌∷◌, arith, if◌then◌else◌,
}
use nft_farming.Checked.{
  Holds, Holds->>=, Holds-both, Holds-map, checked_sub, checked_mul, fit, checked_add,
}
use nft_farming.Text.{text_eq, text_eq_iff, text_eq_refl}
use nft_farming.Map.{Map, lookup, insert, unwrap_or, lookup-insert_ne, lookup-insert_self}
use nft_farming.Map.Set
use nft_farming.Utils.{FarmId, AccountId}
use nft_farming.Farm.{Farm, claim_user_reward, owed, pay_out, end_if_empty}
use nft_farming.Farm.Accounts.{IsLive, distributed, distribute_lem}
use nft_farming.Farm.Backing.{share}
use nft_farming.Farmer.{Farmer, UserRps, seed_balance, get_rps, set_rps}
use nft_farming.Claims.{claim_user_reward_from_farm, claim_from_farms}
use nft_farming.Claims.Growth.{balance, set_rps-rewards, add_reward-balance}
use nft_farming.Claims.Frame.{FarmClaim}
use nft_farming.Claims.OneFarm.{claim_user_reward-farm_id, claim_user_reward_from_farm-HasLeft}
use nft_farming.Claims.Live.{AllClaimable, still_claimable}

-- What a farm owes an account with these stakes and rps, of one reward token.
abbrev pub due_of : AccountId → ℕ → ℕ → Map ℕ → UserRps → Option Farm → ℕ
due_of token now amount stakes rps none = 0
due_of token now amount stakes rps (some farm) =
    if text_eq farm.terms.reward_token token
    then share (unwrap_or (lookup farm.terms.seed_id stakes) 0)
        (distributed now amount farm).last_distribution.rps (get_rps farm.farm_id rps)
    else 0

-- The same of the farms of a list.
unfoldable pub due : AccountId → ℕ → ℕ → Map ℕ → UserRps → Map Farm → List FarmId → ℕ
due token now amount stakes rps farms [] = 0
due token now amount stakes rps farms (id ∷ ids) =
    due_of token now amount stakes rps (lookup id farms) + due token now amount stakes rps farms ids

owed-share :
    (seeds rps user_rps : ℕ) → Holds (λ n. n ≡ share seeds rps user_rps) (owed seeds rps user_rps)
unfolding owed checked_sub checked_mul fit
owed-share seeds rps user_rps = ground arith

pay_out-rps :
    (n : ℕ) (farm : Farm)
    → Holds
        (λ (f : Farm).
          (f.last_distribution.rps ≡ farm.last_distribution.rps) × (f.terms ≡ farm.terms))
        (pay_out n farm)
unfolding pay_out
pay_out-rps n farm = grind arith

distributed-terms :
    (now amount : ℕ) (farm : Farm) → (distributed now amount farm).terms ≡ farm.terms
unfolding end_if_empty
distributed-terms now amount farm = ground arith

claim_user_reward-share :
    (now user_rps seeds amount : ℕ) (farm : Farm)
    → IsLive now farm
    → Holds
        (λ (out : Farm × ℕ × ℕ).
          (out.2 ≡ share seeds (distributed now amount farm).last_distribution.rps user_rps)
          × (out.1 ≡ out.0.last_distribution.rps)
          × (out.0.terms ≡ farm.terms))
        (claim_user_reward now user_rps seeds amount farm)
unfolding claim_user_reward
claim_user_reward-share now user_rps seeds amount farm l =
    rw (distribute_lem now amount farm l)
      (grind (arith, owed-share, pay_out-rps, distributed-terms now amount farm))

set_rps-sets :
    (farm_id : FarmId) (value : ℕ) (farmer : Farmer) (rps : UserRps)
    → Holds
        (λ (out : Farmer × UserRps). get_rps farm_id out.1 ≡ value)
        (set_rps farm_id value farmer rps)
unfolding set_rps get_rps checked_add
set_rps-sets farm_id value farmer rps = grind (arith, lookup-insert_self farm_id value rps)

-- One farm's claim pays what it owes, and records the farm's rps.
abbrev Pays : AccountId → ℕ → ℕ → Farm → Farmer → UserRps → FarmClaim → Type 0
Pays t now amount farm farmer rps out =
    (balance t out.1 ≡ balance t farmer + due_of t now amount farmer.seeds rps (some farm))
    × (get_rps farm.farm_id out.2 ≡ out.0.last_distribution.rps)

claim_user_reward_from_farm-Pays :
    (t : AccountId) (now amount : ℕ) (farm : Farm) (farmer : Farmer) (rps : UserRps)
    → IsLive now farm
    → Holds
        (Pays t now amount farm farmer rps)
        (claim_user_reward_from_farm now amount farm farmer rps)
unfolding claim_user_reward_from_farm
claim_user_reward_from_farm-Pays t now amount farm farmer rps l =
    let seen : ℕ = get_rps farm.farm_id rps in
    let mine : ℕ = seed_balance farm.terms.seed_id farmer in
    let m = claim_user_reward now seen mine amount farm in
    Holds->>= _ _ m _
      (Holds-both _ _ m (claim_user_reward-farm_id now seen mine amount farm)
        (claim_user_reward-share now seen mine amount farm l))
      λ (out : Farm × ℕ × ℕ) h.
        let s = set_rps out.0.farm_id out.1 farmer rps in
        Holds->>= _ _ s _
          (Holds-both _ _ s (set_rps-sets out.0.farm_id out.1 farmer rps)
            (set_rps-rewards out.0.farm_id out.1 farmer rps))
          λ (kept : Farmer × UserRps) k.
            ground (arith, h, k, add_reward-balance t out.0.terms.reward_token out.2 kept.0)

-- Claiming from a farm that is not listed leaves what the others owe.
due-insert :
    (t : AccountId) (now amount : ℕ) (stakes : Map ℕ) (farms : Map Farm) (rps rps' : UserRps)
    (id : FarmId) (farm : Farm) (ids : List FarmId)
    → Set.contains id ids ≡ false
    → ((j : FarmId) → id ≢ j → get_rps j rps' ≡ get_rps j rps)
    → AllClaimable now amount stakes farms rps ids
    → due t now amount stakes rps' (insert id farm farms) ids
      ≡ due t now amount stakes rps farms ids
unfolding due Set.contains
due-insert t now amount stakes farms rps rps' id farm [] apart same h = refl
due-insert t now amount stakes farms rps rps' id farm (j ∷ ids) apart same h =
    let k = h.0 in
    let ne : id ≢ j = λ e. ground (arith, apart, e, text_eq_iff j id) in
    let unseen : get_rps k.farm.farm_id rps' ≡ get_rps k.farm.farm_id rps =
      rw k.named (same j ne) in
    rw
      (
        lookup-insert_ne id j farm farms ne,
        k.there,
        unseen,
        due-insert t now amount stakes farms rps rps' id farm ids (ground (arith, apart)) same h.2,
      )
      refl

-- Whether a farm's own rps has been recorded, where it was claimed from; else nothing has changed.
abbrev pub Recorded : FarmId → Bool → Map Farm → UserRps → Map Farm → UserRps → Type 0
Recorded j true farms rps farms' rps' =
    (farm : Farm) × (lookup j farms' ≡ some farm) × (get_rps j rps' ≡ farm.last_distribution.rps)
Recorded j false farms rps farms' rps' =
    (lookup j farms' ≡ lookup j farms) × (get_rps j rps' ≡ get_rps j rps)

-- What a claim over a list of farms does for one reward token and one farm id.
abbrev pub IsSettled :
    AccountId
    → FarmId
    → ℕ
    → ℕ
    → List FarmId
    → Map Farm
    → Farmer
    → UserRps
    → Map Farm × Farmer × UserRps
    → Type 0
IsSettled t j now amount ids farms farmer rps out =
    (balance t out.1 ≡ balance t farmer + due t now amount farmer.seeds rps farms ids)
    × Recorded j (Set.contains j ids) farms rps out.0 out.2

-- The farm id of the head has been claimed from, and does not come again.
head-Recorded :
    (j id : FarmId) (ids : List FarmId) (farms farms' : Map Farm) (rps rps₁ rps' : UserRps)
    (farm : Farm)
    → Set.contains id ids ≡ false
    → get_rps id rps₁ ≡ farm.last_distribution.rps
    → ((k : FarmId) → id ≢ k → get_rps k rps₁ ≡ get_rps k rps)
    → Recorded j (Set.contains j ids) (insert id farm farms) rps₁ farms' rps'
    → Recorded j (Set.contains j (id ∷ ids)) farms rps farms' rps'
unfolding Set.contains
head-Recorded j id ids farms farms' rps rps₁ rps' farm apart own others h =
    elim (Bool-cases (text_eq id j)) [
      | inl e ↦
          let same : id ≡ j = (text_eq_iff id j).0 e in
          let absent : Set.contains j ids ≡ false = rw same at apart in
          let kept = rw absent at h in
          rw e (
            farm,
            ground (arith, kept, same, lookup-insert_self id farm farms),
            ground (arith, kept, same, own),
          )
      | inr e ↦
          let ne : id ≢ j = λ same. ground (arith, same, e, text_eq_refl j) in
          rw e (elim (Bool-cases (Set.contains j ids)) [
            | inl there ↦ rw there (rw there at h)
            | inr absent ↦
                let kept = rw absent at h in
                rw absent (
                  ground (arith, kept, lookup-insert_ne id j farm farms ne),
                  ground (arith, kept, others j ne),
                )
          ])
    ]

pub claim_from_farms-IsSettled :
    (t : AccountId) (j : FarmId) (now amount : ℕ) (ids : List FarmId) (farms : Map Farm)
    (farmer : Farmer) (rps : UserRps)
    → AllClaimable now amount farmer.seeds farms rps ids
    → Holds
        (IsSettled t j now amount ids farms farmer rps)
        (claim_from_farms now amount ids farms farmer rps)
unfolding claim_from_farms due Set.contains
claim_from_farms-IsSettled t j now amount [] farms farmer rps h = (omega arith, (refl, refl))
claim_from_farms-IsSettled t j now amount (id ∷ ids) farms farmer rps h =
    let k = h.0 in
    let m = claim_user_reward_from_farm now amount k.farm farmer rps in
    rw k.there (
      Holds->>= _ _ m _
        (Holds-both _ _ m (claim_user_reward_from_farm-Pays t now amount k.farm farmer rps k.live)
          (claim_user_reward_from_farm-HasLeft now amount k.farm farmer rps))
        λ (out : FarmClaim) l.
          let same = λ (i : FarmId) (ne : id ≢ i). l.1.1 (i, rw k.named ne) in
          let stakes : out.1.seeds ≡ farmer.seeds = l.1.0.seeds in
          Holds-map _ (IsSettled t j now amount (id ∷ ids) farms farmer rps) _
            (claim_from_farms-IsSettled t j now amount ids (insert id out.0 farms) out.1 out.2 (
              rw stakes (
                still_claimable now amount farmer.seeds farms rps out.2 id out.0 ids h.1 same h.2)))
            λ done e. (
              ground (
                arith,
                e.0,
                l.0.0,
                k.there,
                stakes,
                due-insert t now amount farmer.seeds farms rps out.2 id out.0 ids h.1 same h.2,
              ),
              head-Recorded j id ids farms done.0 rps out.2 done.2 out.0 h.1 (rw k.named at l.0.1)
                  same e.1,
            ))
