-- ===== src/Machine/Guards.antt =====
-- What only the owner may call (ref-farming/src/owner.rs and lib.rs).
use nft_farming.Prelude.{◌≡◌, refl, Bool, true, false, arith}
use nft_farming.Checked.{err, err_not_allowed}
use nft_farming.Text.{text_eq}
use nft_farming.Contract.{Contract, Env}
use nft_farming.Calls
use nft_farming.Calls.{assert_owner}
use nft_farming.Owner
use nft_farming.Machine.{Call, execute}

abbrev pub needs_owner : Call → Bool
needs_owner (Call.create_simple_farm terms min_deposit table metadata) = true
needs_owner (Call.force_upgrade_seed seed_id) = true
needs_owner (Call.set_owner owner_id) = true
needs_owner (Call.force_clean_farm farm_id) = true
needs_owner (Call.modify_seed_min_deposit seed_id min_deposit) = true
needs_owner _ = false

refused :
    (env : Env) (c : Contract)
    → text_eq env.predecessor_account_id c.owner_id ≡ false
    → assert_owner env c ≡ err err_not_allowed
unfolding assert_owner
refused env c h = rw h refl

-- A call of `create_simple_farm`, `force_upgrade_seed`, `set_owner`, `force_clean_farm` or
-- `modify_seed_min_deposit` by an account that is not the owner panics.
pub needs_owner_lem :
    (env : Env) (call : Call) (c : Contract)
    → needs_owner call ≡ true
    → text_eq env.predecessor_account_id c.owner_id ≡ false
    → execute env call c ≡ err err_not_allowed
unfolding execute Calls.create_simple_farm Calls.force_upgrade_seed Owner.set_owner
    Owner.force_clean_farm Owner.modify_seed_min_deposit
needs_owner_lem env call c h other = ground (arith, refused env c other)
