-- ===== src/Storage/Deposits.antt =====
-- What a farmer has paid for storage covers the storage (ref-farming/src/storage_impl.rs).
use nft_farming.Prelude.{ℕ, ◌*◌, ◌-◌, ◌≤◌, ◌≡◌, refl, Option, none, some, [], ◌∷◌, ◌++◌, arith}
use nft_farming.Checked.{Holds, checked_add, checked_sub, checked_mul}
use nft_farming.Map.{lookup, lookup-insert_self}
use nft_farming.Utils.{AccountId}
use nft_farming.Farmer.{Farmer, farmer_bytes, storage_usage}
use nft_farming.Contract.{Contract, Env, transfer}
use nft_farming.Claims.{get_farmer, get_farmer_wrapped}
use nft_farming.Storage.{
  StorageBalance, assert_storage_usage, internal_farmer_storage, with_balance, storage_withdraw,
}

-- What the account has paid, 0 if it is not registered.
abbrev pub paid : AccountId → Contract → ℕ
paid account c = elim (lookup account c.farmers) [ none ↦ 0 | some farmer ↦ farmer.amount ]

-- The account is registered, and the cost of its farmer's bytes is paid for.
abbrev pub IsCovered : Env → AccountId → Contract → Type 0
IsCovered env account c = elim (lookup account c.farmers) [
  | none ↦ ⊥
  | some farmer ↦ farmer_bytes farmer * env.storage_byte_cost ≤ farmer.amount
]

-- The check that ends a deposit and a claim.
pub assert_storage_usage-IsCovered :
    (env : Env) (account : AccountId) (c : Contract)
    → Holds (λ _. IsCovered env account c) (assert_storage_usage env account c)
unfolding assert_storage_usage internal_farmer_storage get_farmer_wrapped storage_usage checked_mul
assert_storage_usage-IsCovered env account c = ground arith

with_balance-same :
    (env : Env) (account : AccountId) (c : Contract)
    → Holds (λ (out : Contract × StorageBalance). out.0 ≡ c) (with_balance env account c)
unfolding with_balance
with_balance-same env account c = ground arith

-- What is paid does not count as storage.
farmer_bytes-amount :
    (farmer : Farmer) (rest : ℕ)
    → farmer_bytes (record farmer { amount = rest }) ≡ farmer_bytes farmer
unfolding farmer_bytes
farmer_bytes-amount farmer rest = refl

-- A withdrawal of a storage deposit that does not panic sends the account just what it takes from
-- the deposit, and what stays pays for the storage of the account's farmer.
pub storage_withdraw-IsCovered :
    (env : Env) (wanted : Option ℕ) (c : Contract)
    → Holds
        (λ (out : Contract × StorageBalance).
          let account = env.predecessor_account_id in
          IsCovered env account out.0
          × (paid account out.0 ≤ paid account c)
          × (out.0.receipts
              ≡ c.receipts ++ transfer account (paid account c - paid account out.0) ∷ []))
        (storage_withdraw env wanted c)
unfolding storage_withdraw internal_farmer_storage get_farmer get_farmer_wrapped storage_usage
    checked_mul checked_add checked_sub
storage_withdraw-IsCovered env wanted c =
    grind (arith, with_balance-same, lookup-insert_self, farmer_bytes-amount)
