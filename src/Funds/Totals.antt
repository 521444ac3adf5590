-- ===== src/Funds/Totals.antt =====
-- Totals over all farms, farmers and receipts under the writes that calls make.
use nft_farming.Prelude.{ℕ, ◌+◌, ◌≤◌, ◌≡◌, Option, none, some, List, [], ◌∷◌, ◌++◌, arith}
use nft_farming.Map.{Map, lookup, insert, remove}
use nft_farming.Utils.{FarmId, AccountId}
use nft_farming.Farm.{Farm}
use nft_farming.Farmer.{Farmer}
use nft_farming.Contract.{Receipt}
use nft_farming.Claims.Growth.{balance}
use nft_farming.Funds.{holding, held_by_farms, earned, committed}

module _ (t : AccountId) where
  abbrev pub holding_of : Option Farm → ℕ
  holding_of none = 0
  holding_of (some farm) = holding t farm

  abbrev pub balance_of : Option Farmer → ℕ
  balance_of none = 0
  balance_of (some farmer) = balance t farmer

  pub held_by_farms-insert :
      (id : FarmId) (farm : Farm) (m : Map Farm)
      → held_by_farms t (insert id farm m) + holding_of (lookup id m)
        ≡ held_by_farms t m + holding t farm
  unfolding held_by_farms insert lookup
  held_by_farms-insert id farm [] = omega arith
  held_by_farms-insert id farm ((k, f) ∷ m) = ground (arith, held_by_farms-insert id farm m)

  pub held_by_farms-remove :
      (id : FarmId) (m : Map Farm)
      → held_by_farms t (remove id m) + holding_of (lookup id m) ≤ held_by_farms t m
  unfolding held_by_farms remove lookup
  held_by_farms-remove id [] = omega arith
  held_by_farms-remove id ((k, f) ∷ m) = ground (arith, held_by_farms-remove id m)

  -- No farm holds more than all do.
  pub holding-le : (id : FarmId) (m : Map Farm) → holding_of (lookup id m) ≤ held_by_farms t m
  unfolding held_by_farms lookup
  holding-le id [] = omega arith
  holding-le id ((k, f) ∷ m) = ground (arith, holding-le id m)

  pub earned-insert :
      (account : AccountId) (farmer : Farmer) (m : Map Farmer)
      → earned t (insert account farmer m) + balance_of (lookup account m)
        ≡ earned t m + balance t farmer
  unfolding earned insert lookup
  earned-insert account farmer [] = omega arith
  earned-insert account farmer ((k, f) ∷ m) = ground (arith, earned-insert account farmer m)

  pub earned-remove :
      (account : AccountId) (m : Map Farmer) → earned t (remove account m) ≤ earned t m
  unfolding earned remove
  earned-remove account [] = omega arith
  earned-remove account ((k, f) ∷ m) = ground (arith, earned-remove account m)

  -- No account has earned more than all have.
  pub balance-le :
      (account : AccountId) (m : Map Farmer) → balance_of (lookup account m) ≤ earned t m
  unfolding earned lookup
  balance-le account [] = omega arith
  balance-le account ((k, f) ∷ m) = ground (arith, balance-le account m)

  pub committed-append :
      (rs rs' : List Receipt) → committed t (rs ++ rs') ≡ committed t rs + committed t rs'
  unfolding committed
  committed-append [] rs' = omega arith
  committed-append (r ∷ rs) rs' = omega (arith, committed-append rs rs')
