-- ===== src/Checked.antt =====
-- Panics as values (ref-farming/src/errors.rs) and the integers of a build with `overflow-checks`:
-- an operation that leaves its width, or divides by zero, panics.
mod Arithmetic
mod Panics
pub use Panics.*
unfoldable pub use Arithmetic.*
