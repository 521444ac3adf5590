-- ===== src/Farmer/Bytes.antt =====
-- What a farmer costs in storage fits its words (ref-farming/src/farmer.rs, `storage_usage`): all of it
-- is computed in 128 bits, and the sum of bytes, which the model does not check, has room to spare.
use nft_farming.Prelude.{ℕ, ◌*◌, ◌<◌, ◌≡◌, arith, length}
use nft_farming.Checked.{ok, u32_mod, u64_mod, u128_mod, checked_mul}
use nft_farming.Farmer.{Farmer, farmer_bytes, storage_usage}

mul_lt : (a b : ℕ) → a < u64_mod → b < u64_mod → a * b < u128_mod
mul_lt a b ha hb = grind arith

-- For a farmer with fewer than 2^32 rewards, seeds and rps, and a price of a byte below 2^64, the
-- count of bytes is below 2^64 and the storage cost is computed without a panic.
pub storage_usage-eq :
    (cost : ℕ) (farmer : Farmer)
    → length farmer.rewards < u32_mod
    → length farmer.seeds < u32_mod
    → farmer.rps_count < u32_mod
    → cost < u64_mod
    → (farmer_bytes farmer < u64_mod)
      × (storage_usage cost farmer ≡ ok (farmer_bytes farmer * cost))
unfolding farmer_bytes storage_usage checked_mul
storage_usage-eq cost farmer rewards seeds rps price =
    let small : farmer_bytes farmer < u64_mod = omega (arith, rewards, seeds, rps) in
    (small, ground (arith, mul_lt (farmer_bytes farmer) cost small price))
