-- ===== src/Storage.antt =====
-- ref-farming/src/storage_impl.rs: what a farmer has paid for storage, and registering.
pub mod Deposits
use nft_farming.Prelude.{
  ℕ, ◌+◌, ◌-◌, ◌*◌, Bool, true, false, Option, none, some, [], ltb, leb, ◌==◌, if◌then◌else◌,
}
use nft_farming.Checked.{
  Result, ok, err, err10_acc_not_registered, err11_insufficient_storage,
  err14_acc_already_registered, err12_storage_unregister_rewards_not_empty,
  err13_storage_unregister_seed_not_empty, not_one_yocto, unwrap_none, ◌>>=◌, ◌>>◌, ensure, expect,
  checked_add, checked_sub, checked_mul, u64_mod, u128_mod,
}
use nft_farming.Map.{Map, insert, remove, unwrap_or}
use nft_farming.Utils.{AccountId, max_account_length}
use nft_farming.Farmer.{Farmer, new_farmer, min_farmer_length, storage_usage}
use nft_farming.Contract.{Contract, Env, transfer, request}
use nft_farming.Claims.{get_farmer, get_farmer_wrapped}

abbrev pub is_empty {ℓ} : {V : Type ℓ} → Map V → Bool
is_empty m = elim m [ [] ↦ true | _ ↦ false ]

-- `StorageBalance` of near-contract-standards: two amounts
pub record StorageBalance : Type 0 where
  pub total : ℕ
  pub available : ℕ

unfoldable pub assert_one_yocto : Env → Result (Unit {0})
assert_one_yocto env = ensure (env.attached_deposit == 1) not_one_yocto

-- The storage fee that is locked, and what was deposited.
unfoldable pub internal_farmer_storage : Env → AccountId → Contract → Result (ℕ × ℕ)
internal_farmer_storage env account_id c = elim (get_farmer_wrapped account_id c) [
  | none ↦ ok (0, 0)
  | some farmer ↦ do locked ← storage_usage env.storage_byte_cost farmer; ok (locked, farmer.amount)
]

unfoldable pub assert_storage_usage : Env → AccountId → Contract → Result (Unit {0})
assert_storage_usage env account_id c = do
  (locked, deposited) ← internal_farmer_storage env account_id c
  ensure (ltb 0 deposited) err10_acc_not_registered
  ensure (leb locked deposited) err11_insufficient_storage

unfoldable pub suggested_min_storage_usage : Env → Result ℕ
suggested_min_storage_usage env =
    checked_mul u128_mod
      (min_farmer_length + 2 * 5 * (max_account_length + 16) + 10 * (max_account_length + 32))
      env.storage_byte_cost

-- The least deposit, and no greatest one.
unfoldable pub storage_balance_bounds : Env → Result (ℕ × Option ℕ)
storage_balance_bounds env = do minimum ← suggested_min_storage_usage env; ok (minimum, none)

unfoldable pub internal_register_account : AccountId → ℕ → Contract → Result Contract
internal_register_account account_id amount c = elim (get_farmer_wrapped account_id c) [
  | some farmer ↦ do
    sum ← checked_add u128_mod farmer.amount amount
    ok (record c { farmers = insert account_id (record farmer { amount = sum }) c.farmers })
  | none ↦ do
    farmer_count ← checked_add u64_mod c.farmer_count 1
    ok (record c {
      farmers = insert account_id (new_farmer account_id amount) c.farmers;
      farmer_count = farmer_count;
    })
]

unfoldable pub storage_balance_of : Env → AccountId → Contract → Result (Option StorageBalance)
storage_balance_of env account_id c = do
  (locked, deposited) ← internal_farmer_storage env account_id c
  ok (
      if ltb 0 locked
      then some (record { total = deposited; available = deposited - locked })
      else none)

-- The balance that ends a deposit and a withdrawal.
unfoldable pub with_balance : Env → AccountId → Contract → Result (Contract × StorageBalance)
with_balance env account_id c = do
  balance ← storage_balance_of env account_id c
  b ← expect balance unwrap_none
  ok (c, b)

-- A new account registers, with a refund of what exceeds the minimum if it only registers.
unfoldable pub register_new : Env → AccountId → Bool → Contract → Result Contract
register_new env account_id registration_only c = do
  minimum ← suggested_min_storage_usage env
  ensure (leb minimum env.attached_deposit) err11_insufficient_storage
  if registration_only
      then (do
        c' ← internal_register_account account_id minimum c
        refund ← checked_sub env.attached_deposit minimum
        ok (if ltb 0 refund then request (transfer env.predecessor_account_id refund) c' else c'))
      else internal_register_account account_id env.attached_deposit c

unfoldable pub storage_deposit :
    Env → Option AccountId → Option Bool → Contract → Result (Contract × StorageBalance)
storage_deposit env account registration c = do
  let account_id = unwrap_or account env.predecessor_account_id
  let registration_only = unwrap_or registration false
  (locked, deposited) ← internal_farmer_storage env account_id c
  c' ←
      if deposited == 0
      then register_new env account_id registration_only c
      else if registration_only
      then err err14_acc_already_registered
      else do
        sum ← checked_add u128_mod env.attached_deposit deposited
        ensure (leb locked sum) err11_insufficient_storage
        internal_register_account account_id env.attached_deposit c
  with_balance env account_id c'

unfoldable pub storage_withdraw : Env → Option ℕ → Contract → Result (Contract × StorageBalance)
storage_withdraw env wanted c = do
  assert_one_yocto env
  let account_id = env.predecessor_account_id
  (locked, deposited) ← internal_farmer_storage env account_id c
  ensure (ltb 0 deposited) err10_acc_not_registered
  ensure (leb locked deposited) err11_insufficient_storage
  let amount = unwrap_or wanted (deposited - locked)
  needed ← checked_add u128_mod locked amount
  ensure (leb needed deposited) err11_insufficient_storage
  farmer ← get_farmer account_id c
  rest ← checked_sub farmer.amount amount
  with_balance env account_id (
      request (transfer account_id amount)
        (record c { farmers = insert account_id (record farmer { amount = rest }) c.farmers }))

-- The stored entries of the farmer's `user_rps` stay. The argument `force` is not used.
unfoldable pub storage_unregister : Env → Option Bool → Contract → Result (Contract × Bool)
storage_unregister env force c = do
  assert_one_yocto env
  let account_id = env.predecessor_account_id
  elim (get_farmer_wrapped account_id c) [
    | none ↦ ok (c, false)
    | some farmer ↦ do
      ensure (is_empty farmer.rewards) err12_storage_unregister_rewards_not_empty
      ensure (is_empty farmer.seeds) err13_storage_unregister_seed_not_empty
      farmer_count ← checked_sub c.farmer_count 1
      ok (
        request (transfer account_id farmer.amount)
            (record c { farmers = remove account_id c.farmers; farmer_count = farmer_count }),
        true,
      )
  ]
