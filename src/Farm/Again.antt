-- ===== src/Farm/Again.antt =====
-- Distributing a farm again and again (ref-farming/src/farm.rs, `distribute`): it never panics while
-- the farm is live, and how often it happens does not matter to what is released.
use nft_farming.Prelude.{ℕ, ◌/◌, ◌≤◌, ◌<◌, ◌≡◌, ap, arith}
use nft_farming.Checked.{Result, ok, ◌>>=◌, Succeeds, u32_mod}
use nft_farming.Utils.{to_nano, nanos}
use nft_farming.Farm.{Farm, running, distribute}
use nft_farming.Farm.Accounts.{IsLive, distributed, distribute_lem}
use nft_farming.Farm.Backing.{Stakers, stake, IsBacked, distributed-IsBacked}
use nft_farming.Farm.Rounds.{sessions_mono, distributed-IsLive, distributed_twice}

-- A distribution of a live farm does not panic, and the farm it gives is live at every later time
-- within 32 bits of seconds.
pub distribute-IsLive :
    (now later total_seeds : ℕ) (farm : Farm)
    → IsLive now farm
    → now ≤ later
    → later / nanos < u32_mod
    → Succeeds (IsLive later) (distribute now total_seeds farm)
distribute-IsLive now later total_seeds farm l order clock =
    rw (distribute_lem now total_seeds farm l)
      (distributed-IsLive now later total_seeds farm l order clock)

-- what a distribution leaves for later rounds
abbrev pub left_after : Result Farm → Result ℕ
left_after m = m >>= λ farm. ok farm.last_distribution.undistributed

-- Distributing a live, running farm that has started now and again later leaves just as much
-- undistributed as distributing it only later does, whatever is staked at either time.
pub distribute-twice :
    (now later total_seeds total_seeds' total_seeds'' : ℕ) (farm : Farm)
    → IsLive now farm
    → farm.status ≡ running
    → to_nano farm.terms.start_at ≤ now
    → now ≤ later
    → later / nanos < u32_mod
    → left_after (distribute now total_seeds farm >>= λ f. distribute later total_seeds' f)
      ≡ left_after (distribute later total_seeds'' farm)
distribute-twice now later total_seeds total_seeds' total_seeds'' farm l run started order clock =
    let l' : IsLive later farm = record {
      usable = l.usable;
      balanced = l.balanced;
      clock = clock;
      past = omega (arith, l.past, sessions_mono now later farm.terms l.usable.interval order);
    } in
    rw
      (
        distribute_lem now total_seeds farm l,
        distribute_lem later total_seeds' (distributed now total_seeds farm)
            (distributed-IsLive now later total_seeds farm l order clock),
        distribute_lem later total_seeds'' farm l',
      )
      (ap (λ n. ok n)
        (distributed_twice now later total_seeds total_seeds' total_seeds'' farm l.usable l.past run
          started order))

-- A distribution of a live farm over the whole stake does not panic, and leaves enough unclaimed
-- reward for what all stakers may claim together, if there was enough before.
pub distribute-IsBacked :
    (now : ℕ) (farm : Farm) (stakers : Stakers)
    → IsLive now farm
    → IsBacked farm stakers
    → Succeeds (λ f. IsBacked f stakers) (distribute now (stake stakers) farm)
distribute-IsBacked now farm stakers l backed =
    rw (distribute_lem now (stake stakers) farm l) (distributed-IsBacked now farm stakers backed)
