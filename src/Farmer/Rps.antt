-- ===== src/Farmer/Rps.antt =====
-- `rps_count` counts the stored entries of `user_rps` (ref-farming/src/farmer.rs).
use nft_farming.Prelude.{ℕ, ◌≡◌, true, arith, length, if◌then◌else◌}
use nft_farming.Checked.{err, overflow, Holds, Succeeds, checked_add, checked_sub}
use nft_farming.Text.{text_eq, text_eq_iff}
use nft_farming.Map.{
  IsMap, lookup, is_some, insert-IsMap, remove-IsMap, length-insert, length-remove, lookup-insert,
  lookup-remove,
}
use nft_farming.Utils.{FarmId}
use nft_farming.Farmer.{Farmer, UserRps, get_rps, set_rps, remove_rps}

-- The count is right.
abbrev pub IsRpsCounted : Farmer × UserRps → Type 0
IsRpsCounted (farmer, rps) = IsMap rps × (farmer.rps_count ≡ length rps)

-- Where the rps count is that of the stored entries, setting a farm's rps, if it does not panic,
-- sets that farm's rps and no other, and keeps the count right.
pub set_rps-IsRpsCounted :
    (farm_id j : FarmId) (value : ℕ) (farmer : Farmer) (rps : UserRps)
    → IsRpsCounted (farmer, rps)
    → Holds
        (λ (out : Farmer × UserRps).
          IsRpsCounted out
          × (get_rps j out.1 ≡ (if text_eq farm_id j then value else get_rps j rps)))
        (set_rps farm_id value farmer rps)
unfolding set_rps get_rps checked_add
set_rps-IsRpsCounted farm_id j value farmer rps h = ground (
  arith,
  insert-IsMap farm_id value rps,
  length-insert farm_id value rps,
  lookup-insert farm_id j value rps,
)

-- Where the rps count is that of the stored entries, removing a farm's rps does not panic, forgets
-- that farm's rps and no other, and keeps the count right.
pub remove_rps-IsRpsCounted :
    (farm_id j : FarmId) (farmer : Farmer) (rps : UserRps)
    → IsRpsCounted (farmer, rps)
    → Succeeds
        (λ (out : Farmer × UserRps).
          IsRpsCounted out × (get_rps j out.1 ≡ (if text_eq farm_id j then 0 else get_rps j rps)))
        (remove_rps farm_id farmer rps)
unfolding remove_rps get_rps checked_sub
remove_rps-IsRpsCounted farm_id j farmer rps h = ground (
  arith,
  remove-IsMap farm_id rps,
  length-remove farm_id rps,
  lookup-remove farm_id j rps,
  text_eq_iff farm_id j,
)

-- Where entries are left that the count misses, removing one panics.
pub remove_rps-uncounted :
    (farm_id : FarmId) (farmer : Farmer) (rps : UserRps)
    → farmer.rps_count ≡ 0
    → is_some (lookup farm_id rps) ≡ true
    → remove_rps farm_id farmer rps ≡ err overflow
unfolding remove_rps checked_sub
remove_rps-uncounted farm_id farmer rps none_counted known = ground arith
