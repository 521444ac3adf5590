-- ===== src/Map.antt =====
-- Maps and sets with text keys: `HashMap` and `HashSet` of the standard library, and the stored
-- `LookupMap`, `UnorderedMap` and `UnorderedSet`. An association list keeps the keys in the order
-- of insertion. The order of iteration is not specified there, and no theorem rests on it.
mod Assoc
mod Keys
mod Values
pub mod Set
unfoldable pub use Assoc.*
unfoldable pub use Keys.*
pub use Values.*
