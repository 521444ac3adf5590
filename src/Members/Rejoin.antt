-- ===== src/Members/Rejoin.antt =====
-- An account that leaves and registers again (ref-farming/src/storage_impl.rs and farmer.rs).
use nft_farming.Prelude.{
  ℕ, ◌≡◌, refl, Bool, true, false, Option, none, some, List, [], ◌∷◌, ◌++◌, arith,
}
use nft_farming.Checked.{ok, err, overflow, ◌>>=◌, Holds, Holds-eq-ok}
use nft_farming.Text.{text_eq_refl}
use nft_farming.Map.{lookup, is_some, lookup-insert_self, lookup-remove}
use nft_farming.Utils.{AccountId, FarmId}
use nft_farming.Farmer.{new_farmer, remove_rps}
use nft_farming.Farmer.Rps.{remove_rps-uncounted}
use nft_farming.Contract.{Contract, Env, transfer, rps_of}
use nft_farming.Claims.{get_farmer, get_farmer_wrapped}
use nft_farming.Storage.{internal_register_account, storage_unregister}

-- What unregistering does: nothing for an account that is not registered. Else the account has no
-- rewards and no seeds, it is removed, and all that it paid is sent back.
abbrev pub HasLeft : AccountId → Contract → Contract × Bool → Type 0
HasLeft account c (c', done) = elim (lookup account c.farmers) [
  | none ↦ (done ≡ false) × (c' ≡ c)
  | some farmer ↦
      (done ≡ true)
      × (farmer.rewards ≡ [])
      × (farmer.seeds ≡ [])
      × (lookup account c'.farmers ≡ none)
      × (c'.receipts ≡ c.receipts ++ transfer account farmer.amount ∷ [])
      × (c'.user_rps ≡ c.user_rps)
]

empty : {V : Type 0} (m : List V) → (elim m [ [] ↦ true | _ ↦ false ]) ≡ true → m ≡ []
empty [] h = refl
empty (v ∷ m) h = cc

-- Unregistering, where it does not panic, reports `false` and changes nothing for an account that
-- is not registered; else it reports `true`, the account had no rewards and no seeds, its farmer
-- is removed, all that it paid is sent back, and the stored rps stay.
pub storage_unregister-HasLeft :
    (env : Env) (force : Option Bool) (c : Contract)
    → Holds (HasLeft env.predecessor_account_id c) (storage_unregister env force c)
unfolding storage_unregister get_farmer_wrapped
storage_unregister-HasLeft env force c =
    let account = env.predecessor_account_id in
    grind (arith, lookup-remove, text_eq_refl account, empty)

abbrev IsNew : AccountId → ℕ → Contract → Contract → Type 0
IsNew account amount c c' =
    (lookup account c'.farmers ≡ some (new_farmer account amount)) × (c'.user_rps ≡ c.user_rps)

internal_register_account-IsNew :
    (account : AccountId) (amount : ℕ) (c : Contract)
    → lookup account c.farmers ≡ none
    → Holds (IsNew account amount c) (internal_register_account account amount c)
unfolding internal_register_account get_farmer_wrapped
internal_register_account-IsNew account amount c h =
    ground (arith, lookup-insert_self account (new_farmer account amount) c.farmers)

-- When an account unregisters and registers again, removing one of the rps entries that it left
-- behind panics.
pub rejoined_lem :
    (env : Env) (force : Option Bool) (farm_id : FarmId) (amount : ℕ) (c c₁ c₂ : Contract)
    → storage_unregister env force c ≡ ok (c₁, true)
    → internal_register_account env.predecessor_account_id amount c₁ ≡ ok c₂
    → is_some (lookup farm_id (rps_of env.predecessor_account_id c)) ≡ true
    → (get_farmer env.predecessor_account_id c₂ >>= λ farmer.
        remove_rps farm_id farmer (rps_of env.predecessor_account_id c₂))
      ≡ err overflow
unfolding get_farmer new_farmer
rejoined_lem env force farm_id amount c c₁ c₂ left joined known =
    let account = env.predecessor_account_id in
    let gone = Holds-eq-ok (HasLeft account c) (storage_unregister-HasLeft env force c) left in
    let none_there : (lookup account c₁.farmers ≡ none) × (c₁.user_rps ≡ c.user_rps) =
      ground arith in
    let new =
      Holds-eq-ok (IsNew account amount c₁)
        (internal_register_account-IsNew account amount c₁ none_there.0) joined in
    rw (new.0, new.1, none_there.1)
      (remove_rps-uncounted farm_id (new_farmer account amount) (rps_of account c) refl known)
