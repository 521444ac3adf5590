-- ===== src/View/Orders.antt =====
-- The order in which the storage keeps the keys of `farms` (ref-farming/src/view.rs, `list_farms`).
use mathlib.Core.HLevel.{⊥_prop}
use mathlib.Core.Logic.{∥∥₁_elim}
use mathlib.Core.List.{Perm, Perm-prop, Permᴰ}
use mathlib.Core.List.Perm
use nft_farming.Prelude.{ℕ, ◌+◌, ◌<◌, ◌≡◌, refl, sym, List, [], ◌∷◌, ◌++◌, arith, length}
use nft_farming.Checked.{
  Result, ok, err, Holds, Holds-found, Succeeds, u64_mod, checked_add, ◌>>=◌, expect, unwrap_none,
  >>=-eq-ok,
}
use nft_farming.Map.{lookup}
use nft_farming.Utils.{FarmId}
use nft_farming.Contract.{Contract, Env}
use nft_farming.FarmInfo.{FarmInfo, farm_info, infos}
use nft_farming.View.{list_farms, page, slice}
use nft_farming.View.Pages.{slice-append, slice-length}

length-Permᴰ : {A : Type 0} {xs ys : List A} → Permᴰ xs ys → length xs ≡ length ys
length-Permᴰ Permᴰ.nil = refl
length-Permᴰ (Permᴰ.cons e p) = omega (arith, length-Permᴰ p)
length-Permᴰ (Permᴰ.swap e₁ e₂) = refl
length-Permᴰ (Permᴰ.trans p q) = omega (arith, length-Permᴰ p, length-Permᴰ q)

module _ (env : Env) (c : Contract) where
  -- What the first farm of a list shows.
  abbrev info_one : FarmId → Result FarmInfo
  info_one farm_id =
      expect (lookup farm_id c.farms) unwrap_none >>= λ farm. farm_info env.block_timestamp farm

  infos_cons :
      (farm_id : FarmId) (rest : List FarmId) {shown : List FarmInfo}
      → infos env c (farm_id ∷ rest) ≡ ok shown
      → (info : FarmInfo) × (others : List FarmInfo) × (info_one farm_id ≡ ok info)
        × (infos env c rest ≡ ok others)
        × (shown ≡ info ∷ others)
  unfolding infos
  infos_cons farm_id rest e =
      let (farm, there, e₁) = >>=-eq-ok (expect (lookup farm_id c.farms) unwrap_none) _ e in
      let (info, one, e₂) = >>=-eq-ok (farm_info env.block_timestamp farm) _ e₁ in
      let (others, more, e₃) = >>=-eq-ok (infos env c rest) _ e₂ in
      (info, others, rw (there, one) refl, more, cc e₃)

  infos_put :
      (farm_id : FarmId) (rest : List FarmId) {info : FarmInfo} {others : List FarmInfo}
      → info_one farm_id ≡ ok info
      → infos env c rest ≡ ok others
      → infos env c (farm_id ∷ rest) ≡ ok (info ∷ others)
  unfolding infos
  infos_put farm_id rest one more =
      let (farm, there, shows) = >>=-eq-ok (expect (lookup farm_id c.farms) unwrap_none) _ one in
      rw (there, shows, more) refl

  -- What two lists of farms show is what both together show.
  infos-append :
      (xs ys : List FarmId) {shown shown' : List FarmInfo}
      → infos env c xs ≡ ok shown
      → infos env c ys ≡ ok shown'
      → infos env c (xs ++ ys) ≡ ok (shown ++ shown')
  unfolding infos
  infos-append [] ys {shown} e e' = let nothing : [] ≡ shown = cc e in rw (sym nothing) e'
  infos-append (farm_id ∷ xs) ys e e' =
      let (info, others, one, more, same) = infos_cons farm_id xs e in
      rw same (infos_put farm_id (xs ++ ys) one (infos-append xs ys more e'))

  -- What a list of farms shows does not depend on its order, but for the order of what is shown.
  infos-perm :
      {xs ys : List FarmId}
      → Permᴰ xs ys
      → {shown : List FarmInfo} → infos env c xs ≡ ok shown
      → (shown' : List FarmInfo) × (infos env c ys ≡ ok shown') × Perm shown shown'
  infos-perm Permᴰ.nil {shown} e = (shown, e, Perm.refl shown)
  infos-perm (Permᴰ.cons {a = a} {l₁ = l₁} {l₂ = l₂} e p) eq =
      let (info, others, one, more, same) = infos_cons a l₁ eq in
      let (others', more', perm) = infos-perm p more in
      (info ∷ others', rw (sym e) (infos_put a l₂ one more'), rw same (Perm.cons info perm))
  infos-perm (Permᴰ.swap {a = a} {b = b} {l = l} e₁ e₂) eq =
      let (info₁, others₁, one₁, more₁, same₁) = infos_cons a (b ∷ l) eq in
      let (info₂, others₂, one₂, more₂, same₂) = infos_cons b l more₁ in
      (
        info₂ ∷ info₁ ∷ others₂,
        rw (sym e₁, sym e₂) (infos_put b (a ∷ l) one₂ (infos_put a l one₁ more₂)),
        rw (same₁, same₂) (Perm.swap info₂ info₁ others₂),
      )
  infos-perm (Permᴰ.trans p q) eq =
      let (shown₁, done₁, perm₁) = infos-perm p eq in
      let (shown₂, done₂, perm₂) = infos-perm q done₁ in (shown₂, done₂, Perm.trans perm₁ perm₂)

  page_lem : (m n : ℕ) (keys : List FarmId) → m + n < u64_mod → page m n keys ≡ ok (slice m n keys)
  unfolding page checked_add
  page_lem m n keys h = ground arith

  -- The whole listing in another order shows what two pages do.
  abbrev Permuted : List FarmId → List FarmInfo → List FarmInfo → Type 0
  Permuted keys shown shown' =
      Succeeds (λ all. Perm (shown ++ shown') all) (list_farms env keys 0 (length keys) c)

  Succeeds-prop :
      {A : Type 0} (P : A → Type 0) (m : Result A)
      → ((a : A) → IsProp (P a))
      → IsProp (Succeeds P m)
  Succeeds-prop P (ok a) h = h a
  Succeeds-prop P (err e) h = ⊥_prop

  list_farms-whole :
      (keys : List FarmId)
      → length keys < u64_mod
      → list_farms env keys 0 (length keys) c ≡ infos env c keys
  unfolding list_farms
  list_farms-whole keys fits =
      rw (page_lem 0 (length keys) keys (omega (arith, fits)), slice-length keys) refl

  pages_lem :
      (keys : List FarmId) (m n : ℕ) {shown shown' : List FarmInfo}
      → m + n ≡ length keys
      → infos env c (slice 0 m keys) ≡ ok shown
      → infos env c (slice m n keys) ≡ ok shown'
      → infos env c keys ≡ ok (shown ++ shown')
  pages_lem keys m n sum e e' =
      let whole : slice 0 m keys ++ slice m n keys ≡ keys =
        let from : 0 + m ≡ m = omega arith in
        rw (from, sum, slice-length keys) at (slice-append 0 m n keys) in
      rw whole at (infos-append (slice 0 m keys) (slice m n keys) e e')

  pages-Permuted :
      {keys keys' : List FarmId} (m n : ℕ) {shown shown' : List FarmInfo}
      → Permᴰ keys keys'
      → m + n ≡ length keys
      → length keys < u64_mod
      → infos env c (slice 0 m keys) ≡ ok shown
      → infos env c (slice m n keys) ≡ ok shown'
      → Permuted keys' shown shown'
  pages-Permuted {keys} {keys'} m n perm sum fits e e' =
      let (all, done, same) = infos-perm perm (pages_lem keys m n sum e e') in
      rw (list_farms-whole keys' (omega (arith, fits, length-Permᴰ perm)), done) same

  -- For two orders in which the storage may keep the same farms: where two pages that cover the
  -- farms in one order can be shown, all farms can be shown in the other order, and they show the
  -- same up to order.
  pub list_farms-Permuted :
      (keys keys' : List FarmId) (m n : ℕ)
      → Perm keys keys'
      → m + n ≡ length keys
      → length keys < u64_mod
      → Holds
          (λ shown. Holds (Permuted keys' shown) (list_farms env keys m n c))
          (list_farms env keys 0 m c)
  unfolding list_farms
  list_farms-Permuted keys keys' m n perm sum fits =
      rw
        (page_lem 0 m keys (omega (arith, sum, fits)), page_lem m n keys (omega (arith, sum, fits)))
        (Holds-found _ (infos env c (slice 0 m keys)) λ shown e.
          Holds-found _ (infos env c (slice m n keys)) λ shown' e'.
            ∥∥₁_elim perm (Succeeds-prop _ _ λ _. Perm-prop)
              λ p. pages-Permuted m n p sum fits e e')
