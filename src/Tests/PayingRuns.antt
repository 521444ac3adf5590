-- ===== src/Tests/PayingRuns.antt =====
-- Alice, who has staked, sends more of the seed, and claims.
use nft_farming.Prelude.{ℕ, ◌≡◌, refl, [], arith}
use nft_farming.Checked.{Succeeds}
use nft_farming.Map.Set
use nft_farming.Text.{text_eq}
use nft_farming.Contract.{Contract, Env}
use nft_farming.Funds.{owes}
use nft_farming.Calls.{claim_reward_by_seed}
use nft_farming.Receiver.{ft_on_transfer}
use nft_farming.Stakes.Moves.{moved, HasGrown}
use nft_farming.World.Staking.{CanClaim}
use nft_farming.World.Paying.{HasClaimed, ft_on_transfer-Succeeds, claim_reward_by_seed-Succeeds}
use nft_farming.Tests.Data.{alice, seed, gold, farm_id, env_of}
use nft_farming.Tests.WorldRuns.{
  staked, staked-IsPossible, staked-contract, alice_staked, seed_staked, alice-IsClaimable,
}
use nft_farming.Tests.StakingRuns.{at_230, alice-CanClaim}

abbrev sent_at_230 : Env
sent_at_230 = env_of seed 0 230 []

sender-CanClaim : CanClaim sent_at_230 staked alice seed alice_staked seed_staked
unfolding Set.contains
sender-CanClaim = record {
  possible = staked-IsPossible;
  known = staked-contract.0;
  found = staked-contract.1;
  claimable = rw staked-contract.3 (alice-IsClaimable, refl, tt);
  room = omega arith;
}

ft_on_transfer-Succeeds_example :
    Succeeds
      (λ (out : Contract × ℕ).
        (out.1 ≡ 0)
        × HasGrown seed alice (moved seed seed 1_000_000_000_000_000_000) staked.contract out.0)
      (ft_on_transfer sent_at_230 alice 1_000_000_000_000_000_000 [] staked.contract)
ft_on_transfer-Succeeds_example =
    ft_on_transfer-Succeeds seed sent_at_230 staked alice alice_staked seed_staked
      1_000_000_000_000_000_000 refl (omega arith) sender-CanClaim (omega arith)
      (record { deposited = omega arith; small = omega arith; pays = omega arith })

claim_reward_by_seed-Succeeds_example :
    Succeeds
      (λ c'.
        HasClaimed gold farm_id at_230.block_timestamp alice alice_staked seed_staked
          staked.contract c'
        × (owes gold c' ≡ owes gold staked.contract))
      (claim_reward_by_seed at_230 seed staked.contract)
unfolding Set.contains text_eq
claim_reward_by_seed-Succeeds_example =
    claim_reward_by_seed-Succeeds gold farm_id at_230 staked seed alice_staked seed_staked
      alice-CanClaim (record { deposited = omega arith; small = omega arith; pays = omega arith })
      refl
