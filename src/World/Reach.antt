-- ===== src/World/Reach.antt =====
-- An invariant of the contract holds in every possible world (ref-farming/src/lib.rs).
use nft_farming.Checked.{Result, ok, err, Holds, Holds-eq-ok}
use nft_farming.Utils.{SeedId}
use nft_farming.Contract.{
  Contract, Env, PromiseResult, Receipt, transfer, ft_transfer, nft_transfer,
}
use nft_farming.Machine.{Call, execute}
use nft_farming.Machine.Invariant.{IsInvariant}
use nft_farming.Machine.Reach.{execute_keeps}
use nft_farming.Stakes.Sum.{IsStaked}
use nft_farming.Machine.Staked.{HasStake, HasStake-IsInvariant}
use nft_farming.World.{
  World, settle, invoke, conclude, call_of, with_result, Step, called, arrived, bounced, IsPossible,
  started, next,
}

module _ (P : Contract → Type 0) (i : IsInvariant P) where
  settle_keeps :
      (m : Result Contract) (w : World) → P w.contract → Holds P m → P (settle m w).contract
  unfolding settle
  settle_keeps (err e) w h h' = h
  settle_keeps (ok c) w h h' = i.ready c h'

  invoke_keeps :
      (env : Env) (call : Call) (w : World) → P w.contract → P (invoke env call w).contract
  unfolding invoke
  invoke_keeps env call w h = settle_keeps (execute env call w.contract) w h (
      execute_keeps P i.calls env call w.contract
        (λ token_id sender_id amount _.
          i.give_back_reward env token_id sender_id amount w.contract h)
        h)

  conclude_keeps :
      (env : Env) (result : PromiseResult) (r : Receipt) (w : World)
      → P w.contract
      → P (conclude env result r w).contract
  unfolding conclude
  conclude_keeps env result (transfer account n) w h = h
  conclude_keeps env result (ft_transfer account n id k) w h =
      invoke_keeps (with_result result env) (call_of k) w h
  conclude_keeps env result (nft_transfer account n id k) w h =
      invoke_keeps (with_result result env) (call_of k) w h

  Step-keeps : {w w' : World} → Step w w' → P w.contract → P w'.contract
  Step-keeps {w} (called env call direct) h = invoke_keeps env call w h
  Step-keeps (arrived env before r after e) h = conclude_keeps env _ r _ h
  Step-keeps (bounced env before r after e) h = conclude_keeps env _ r _ h

  pub possible : {w : World} → IsPossible w → P w.contract
  possible (started owner_id e) = Holds-eq-ok P (i.init owner_id) e
  possible (next p step) = Step-keeps step (possible p)

-- In a possible world a seed records what all farmers hold of it.
pub possible-IsStaked : (s : SeedId) {w : World} → IsPossible w → IsStaked s w.contract
possible-IsStaked s p = (possible (HasStake s) (HasStake-IsInvariant s) p).1
