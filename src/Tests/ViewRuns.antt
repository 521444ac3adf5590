-- ===== src/Tests/ViewRuns.antt =====
-- The listing of two farms, in two orders of the storage; an upgrade; the storage that a farmer costs.
use mathlib.Core.List.{Perm}
use mathlib.Core.List.Perm
use nft_farming.Prelude.{◌*◌, ◌<◌, ◌≡◌, refl, some, [], ◌∷◌, ◌++◌, arith}
use nft_farming.Checked.{ok, Holds, Succeeds, u64_mod}
use nft_farming.Text.{Text, codes}
use nft_farming.Contract.{Contract}
use nft_farming.View.{list_farms}
use nft_farming.View.Orders.{list_farms-Permuted}
use nft_farming.Farmer.{farmer_bytes, storage_usage}
use nft_farming.Farmer.Bytes.{storage_usage-eq}
use nft_farming.Upgrade.{Host, IsUpgrade, upgrade, upgrade-IsUpgrade}
use nft_farming.Tests.Data.{alice, alice_farmer, owner, contract, farm, farm_id, env_of}

abbrev other_id : Text
other_id = codes "seed#1"

abbrev two_farms : Contract
two_farms = record contract {
  farms = (farm_id, farm) ∷ (other_id, record farm { farm_id = other_id }) ∷ [];
}

list_farms-Permuted_example :
    Holds
      (λ shown.
        Holds
          (λ shown'.
            Succeeds
              (λ all. Perm (shown ++ shown') all)
              (list_farms (env_of alice 0 230 []) (other_id ∷ farm_id ∷ []) 0 2 two_farms))
          (list_farms (env_of alice 0 230 []) (farm_id ∷ other_id ∷ []) 1 1 two_farms))
      (list_farms (env_of alice 0 230 []) (farm_id ∷ other_id ∷ []) 0 1 two_farms)
list_farms-Permuted_example =
    list_farms-Permuted (env_of alice 0 230 []) two_farms (farm_id ∷ other_id ∷ [])
      (other_id ∷ farm_id ∷ []) 1 1 (Perm.swap other_id farm_id []) refl (omega arith)

abbrev host : Host
host = record {
  input = codes "code";
  current_account_id = codes "farming";
  prepaid_gas = 300_000_000_000_000;
  used_gas = 5_000_000_000_000;
  word_at_zero = 0;
}

upgrade-IsUpgrade_example :
    Holds
      (IsUpgrade (env_of owner 0 230 []) host (some contract))
      (upgrade (env_of owner 0 230 []) host (some contract))
upgrade-IsUpgrade_example = upgrade-IsUpgrade (env_of owner 0 230 []) host (some contract)

storage_usage-eq_example :
    (farmer_bytes alice_farmer < u64_mod)
    × (storage_usage 10_000_000_000_000_000_000 alice_farmer
        ≡ ok (farmer_bytes alice_farmer * 10_000_000_000_000_000_000))
storage_usage-eq_example =
    storage_usage-eq 10_000_000_000_000_000_000 alice_farmer (omega arith) (omega arith)
      (omega arith) (omega arith)
