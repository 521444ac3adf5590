-- ===== src/View/Pages.antt =====
-- Pages of a listing, and the two searches for an NFT's value (ref-farming/src/view.rs, utils.rs).
use nft_farming.Prelude.{ℕ, zero, suc, ◌+◌, ◌≡◌, refl, ap, List, [], ◌∷◌, ◌++◌, arith, length}
use nft_farming.Checked.{ok, ◌>>=◌, expect, unwrap_none}
use nft_farming.Map.{lookup}
use nft_farming.Text.{Text}
use nft_farming.Utils.{SeedId, get_nft_balance_equivalent}
use nft_farming.Contract.{Contract}
use nft_farming.View.{slice, view_nft_balance_equivalent}

-- Two pages that follow each other are one page.
pub slice-append :
    {A : Type 0} (from_index m n : ℕ) (xs : List A)
    → slice from_index m xs ++ slice (from_index + m) n xs ≡ slice from_index (m + n) xs
unfolding slice
slice-append from_index m n [] = refl
slice-append zero zero n (x ∷ xs) =
    let same : n ≡ 0 + n = omega arith in ap (λ k. slice zero k (x ∷ xs)) same
slice-append zero (suc m) n (x ∷ xs) =
    let more : suc m + n ≡ suc (m + n) = omega arith in
    let next : 0 + suc m ≡ suc (0 + m) = omega arith in
    rw (more, next) (ap (λ l. x ∷ l) (slice-append zero m n xs))
slice-append (suc from_index) m n (x ∷ xs) =
    let next : suc from_index + m ≡ suc (from_index + m) = omega arith in
    rw next (slice-append from_index m n xs)

-- A page that is long enough is the whole listing.
pub slice-length : {A : Type 0} (xs : List A) → slice 0 (length xs) xs ≡ xs
unfolding slice
slice-length [] = refl
slice-length (x ∷ xs) = ap (λ l. x ∷ l) (slice-length xs)

-- The view of an NFT's value panics where the seed has no table, and else finds the value that
-- staking and unstaking use.
pub view-eq-get_nft_balance_equivalent :
    (seed_id : SeedId) (token : Text) (c : Contract)
    → view_nft_balance_equivalent seed_id token c ≡ (
        expect (lookup seed_id c.nft_balance_seeds) unwrap_none >>= λ table.
        ok (get_nft_balance_equivalent table token))
unfolding view_nft_balance_equivalent get_nft_balance_equivalent
view-eq-get_nft_balance_equivalent seed_id token c = ground arith
