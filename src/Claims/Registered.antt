-- ===== src/Claims/Registered.antt =====
-- Registered accounts (ref-farming/src/internals.rs): a claim finds the farmer and keeps it.
use nft_farming.Prelude.{◌≡◌, some, true, arith}
use nft_farming.Checked.{ok, Holds}
use nft_farming.Map.{lookup, lookup-insert_self, is_some}
use nft_farming.Utils.{SeedId, AccountId}
use nft_farming.Farmer.{Farmer}
use nft_farming.Contract.{Contract, Env}
use nft_farming.Claims.{get_farmer, get_seed_wrapped, internal_claim_user_reward_by_seed_id}

abbrev pub Registered : AccountId → Contract → Type 0
Registered account c = is_some (lookup account c.farmers) ≡ true

-- An account whose farmer was found is registered.
pub get_farmer-Registered :
    (account : AccountId) (c : Contract) {farmer : Farmer}
    → get_farmer account c ≡ ok farmer
    → Registered account c
unfolding get_farmer
get_farmer-Registered account c h = ground arith

pub get_farmer-lookup :
    (account : AccountId) (c : Contract) {farmer : Farmer}
    → get_farmer account c ≡ ok farmer
    → lookup account c.farmers ≡ some farmer
unfolding get_farmer
get_farmer-lookup account c h = ground arith

pub claim_by_seed-Registered :
    (env : Env) (sender_id : AccountId) (seed_id : SeedId) (c : Contract)
    → Holds (Registered sender_id) (internal_claim_user_reward_by_seed_id env sender_id seed_id c)
unfolding internal_claim_user_reward_by_seed_id get_farmer get_seed_wrapped
claim_by_seed-Registered env sender_id seed_id c = grind (arith, lookup-insert_self)
