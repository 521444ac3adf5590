-- ===== src/Lib.antt =====
-- A model of the NFT farming contract (ref-farming/src, a NEAR contract in Rust) and proofs about it.
--
-- The contract keeps seeds, which farmers stake, and farms, each of which belongs to a seed and
-- releases a reward token by sessions. The reward per seed (rps) of a farm says what a unit of the
-- seed has earned, and a farmer keeps the rps of the last claim. Staking and unstaking first claim,
-- then change the stake, then withdraw the farmer's rewards. A withdrawal asks for a transfer, whose
-- result comes back in a callback that is to undo the withdrawal if the transfer failed.
--
-- Which file models what:
--   Checked: a panic as a value (errors.rs) and the checked arithmetic of `overflow-checks = true`
--   Text, Map: byte strings; HashMap, LookupMap, UnorderedMap and the sets as lists
--   Utils: utils.rs
--   Farm, Farm/Lifecycle: farm.rs; the other files of Farm are proofs, with the schedule that a farm
--     promises in Farm/Schedule, its accounts in Farm/Accounts and the stakers' claims in Farm/Backing
--   FarmSeed: farm_seed.rs; Farmer: farmer.rs
--   Contract: the state of lib.rs, what a call reads of the chain, and what it asks of it
--   Claims, Stakes, Farms: internals.rs
--   Rewards, Calls: the methods and callbacks of lib.rs; Receiver: token_receiver.rs
--   Storage: storage_impl.rs; Owner, Upgrade: owner.rs; FarmInfo, View: view.rs
--   TestNft: test-nft/src/lib.rs; TestToken: test-token/src/lib.rs, each with the interface of the token
--     standard that it wraps in its child Standard
--   Ledger, Members: what all farms and all registered accounts keep
--   Funds: the reward tokens that the contract answers for, and what each operation does to them
--   Machine: all calls that change state as one step relation, the interface of an invariant, and for
--     which account a call is made
--   World: the contract among the token contracts, with the transfers that are in flight
--   Tests: runs on small inputs, among them one of the tests of lib.rs
-- The files below Claims, Stakes, Farms, Rewards, Calls, Storage, Farmer, Members, Funds, View, Machine
-- and World are proofs, named for what they prove.
--
-- A function has the name that it has in the source. A method takes the contract, and the farmer's
-- stored `user_rps` beside the farmer, and returns what it changes, or the error that it panics with;
-- a call that panics leaves the state as it was. Loops run over the list of a seed's farms, so they
-- need no fuel. Numbers are natural numbers, with the width of each word written where the source
-- can leave it (`usize` has 32 bits on wasm32). The host is the record `Env`; what the state costs in
-- storage is a function there, since the host computes it. `promise_results` is what the callee did.
--
-- The token contracts are not part of the repository, but for the two of the simulation tests. In World a
-- transfer succeeds or fails, at any time, and then its callback runs, once, with that result. The
-- code of near-contract-standards is a record of operations, and what its documentation says of them
-- a record of laws; Tests/Standards has values of both. The order in which the storage keeps the
-- keys of `farms` is an argument of `list_farms`.
--
-- Not modelled: logs; gas, but for that of an upgrade and of `nft_transfer_call`; `#[private]` in Machine
-- (so that more states count as reachable), while in World only the contract calls its callbacks;
-- serialization; what the storage keeps of the NFT sets of an account that
-- has left (its entries come back when it registers and stakes under the same seed again);
-- `new_default_meta` of test-nft, which fills in example texts; the methods that the
-- macros of near-contract-standards generate; the tests in Rust, but for one that Tests/Basics runs.
pub mod Prelude
pub mod Checked
pub mod Text
pub mod Map
pub mod Utils
pub mod Farm
pub mod Farmer
pub mod FarmSeed
pub mod Contract
pub mod Claims
pub mod Rewards
pub mod Stakes
pub mod Farms
pub mod Storage
pub mod FarmInfo
pub mod Calls
pub mod View
pub mod Receiver
pub mod Owner
pub mod Upgrade
pub mod Members
pub mod Ledger
pub mod Funds
pub mod TestNft
pub mod TestToken
pub mod Machine
pub mod World
mod Tests
