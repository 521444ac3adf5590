-- ===== src/Tests.antt =====
-- Runs of the contract on small inputs.
pub mod Data
mod FarmRuns
mod StakeRuns
mod ContractRuns
mod Basics
pub mod WorldRuns
pub mod StakingRuns
mod PayingRuns
mod NftRuns
pub mod Standards
mod StandardRuns
mod ViewRuns
