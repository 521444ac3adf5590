-- ===== src/Tests/StakingRuns.antt =====
-- Alice stakes more, and takes some of her stake out.
use nft_farming.Prelude.{◌≡◌, refl, none, List, [], ◌∷◌, arith}
use nft_farming.Checked.{Holds, Succeeds}
use nft_farming.Map.{lookup, is_some}
use nft_farming.Map.Set
use nft_farming.Text.{codes, text_eq}
use nft_farming.Farmer.Rps.{IsRpsCounted}
use nft_farming.Contract.{Env, rps_of}
use nft_farming.Calls.{withdraw_seed}
use nft_farming.Stakes.Moves.{moved}
use nft_farming.Stakes.Unstake.{HasShrunk}
use nft_farming.World.Staking.{CanClaim, withdraw_seed-Succeeds}
use nft_farming.Machine.{Call, run}
use nft_farming.Machine.Steady.{IsRuled}
use nft_farming.Machine.Ruled.{attempts, attempts-IsRuled}
use nft_farming.Machine.Others.{run-others}
use nft_farming.Tests.Data.{alice, bob, owner, seed, pics, gold, farm_id, terms, contract, env_of}
use nft_farming.Tests.WorldRuns.{
  staked, staked-IsPossible, staked-contract, alice_staked, seed_staked, alice-IsClaimable,
}

abbrev pub at_230 : Env
at_230 = env_of alice 1 230 []

pub alice-CanClaim : CanClaim at_230 staked alice seed alice_staked seed_staked
unfolding Set.contains
alice-CanClaim = record {
  possible = staked-IsPossible;
  known = staked-contract.0;
  found = staked-contract.1;
  claimable = rw staked-contract.3 (alice-IsClaimable, refl, tt);
  room = omega arith;
}

alice-IsRpsCounted : IsRpsCounted (alice_staked, rps_of alice staked.contract)
unfolding lookup
alice-IsRpsCounted = rw staked-contract.3 ((refl, tt), refl)

withdraw_seed-Succeeds_example :
    Succeeds
      (HasShrunk seed alice (moved seed seed 7) staked.contract)
      (withdraw_seed at_230 seed 7 staked.contract)
unfolding lookup text_eq
withdraw_seed-Succeeds_example =
    withdraw_seed-Succeeds seed at_230 staked seed alice_staked seed_staked 7 refl refl
      alice-CanClaim alice-IsRpsCounted (omega arith) (omega arith)

-- the owner tops the farm up, and alice stakes and claims
abbrev others : List (Env × Call)
others =
    (env_of gold 0 235 [], Call.ft_on_transfer owner 20 farm_id)
    ∷ (env_of seed 0 240 [], Call.ft_on_transfer alice 2_000_000_000_000_000_000 [])
    ∷ (env_of alice 1 300 [], Call.claim_reward_by_seed seed)
    ∷ []

run-others_example :
    Holds (λ c'. lookup bob c'.farmers ≡ lookup bob contract.farmers) (run others contract)
run-others_example = run-others bob others contract ((λ e. cc e), ((λ e. cc e), ((λ e. cc e), tt)))

-- bob tries to become the owner and to open a farm, and the owner of the farm's reward tops it up
abbrev strangers : List (Env × Call)
strangers =
    (env_of bob 0 231 [], Call.set_owner bob)
    ∷ (env_of bob 0 232 [], Call.create_simple_farm terms none none none)
    ∷ (env_of gold 0 235 [], Call.ft_on_transfer owner 20 farm_id)
    ∷ (env_of bob 1 300 [], Call.claim_reward_by_seed seed)
    ∷ []

attempts-IsRuled_example :
    IsRuled owner []
      ((pics, (codes "art", 2) ∷ []) ∷ [])
      farm_id
      (is_some (lookup farm_id contract.farms))
      (attempts strangers contract)
attempts-IsRuled_example =
    attempts-IsRuled farm_id strangers contract
      ((λ e. cc e), ((λ e. cc e), ((λ e. cc e), ((λ e. cc e), tt))))
