-- ===== src/Tests/Data.antt =====
-- Accounts, farms and a contract for the runs: alice and bob stake 10 and 30 of the seed "seed", whose
-- farm "seed#0" gives 5 of the token "gold" a minute, and bob has staked the NFT "art@7" under "pics".
use nft_farming.Prelude.{ℕ, ◌*◌, none, List, [], ◌∷◌}
use nft_farming.Text.{Text, codes}
use nft_farming.Map.{Map}
use nft_farming.Utils.{AccountId, nanos}
use nft_farming.Farm.{FarmTerms, Farm, created, running}
use nft_farming.FarmSeed.{FarmSeed, SeedType, ft, nft}
use nft_farming.Farmer.{Farmer}
use nft_farming.Contract.{Contract, Env, PromiseResult}
use nft_farming.Machine.{Call}

abbrev pub alice : AccountId
alice = codes "alice"

abbrev pub bob : AccountId
bob = codes "bob"

abbrev pub owner : AccountId
owner = codes "owner"

abbrev pub seed : AccountId
seed = codes "seed"

abbrev pub pics : AccountId
pics = codes "pics"

abbrev pub gold : AccountId
gold = codes "gold"

abbrev pub farm_id : Text
farm_id = codes "seed#0"

-- a call by an account with a deposit, so many seconds after 1970
abbrev pub env_of : AccountId → ℕ → ℕ → List PromiseResult → Env
env_of account deposit seconds results = record {
  predecessor_account_id = account;
  signer_account_id = account;
  block_timestamp = seconds * nanos;
  attached_deposit = deposit;
  storage_byte_cost = 1;
  storage_usage = λ c. 0;
  promise_results = results;
}

abbrev pub terms : FarmTerms
terms = record {
  seed_id = seed;
  reward_token = gold;
  start_at = 100;
  reward_per_session = 5;
  session_interval = 60;
}

-- After one session: 5 of 50 are released, and alice and bob have claimed nothing yet.
abbrev pub farm : Farm
farm = record {
  farm_id = farm_id;
  terms = terms;
  status = running;
  last_distribution = record {
    undistributed = 45;
    unclaimed = 5;
    rps = 125_000_000_000_000_000_000_000;
    rr = 1;
  };
  amount_of_reward = 50;
  amount_of_claimed = 0;
  amount_of_beneficiary = 0;
}

abbrev pub farmer_of : AccountId → Map ℕ → Map ℕ → Map (List Text) → ℕ → Farmer
farmer_of id rewards seeds nfts rps_count = record {
  farmer_id = id;
  amount = 100_000;
  rewards = rewards;
  seeds = seeds;
  rps_count = rps_count;
  nft_seeds = nfts;
}

abbrev pub alice_farmer : Farmer
alice_farmer = farmer_of alice ((gold, 7) ∷ []) ((seed, 10) ∷ []) [] 1

abbrev pub bob_farmer : Farmer
bob_farmer = farmer_of bob [] ((seed, 30) ∷ (pics, 2) ∷ []) ((pics, codes "art@7" ∷ []) ∷ []) 0

abbrev pub seed_of : Text → SeedType → List Text → ℕ → FarmSeed
seed_of id kind farms amount = record {
  seed_id = id;
  seed_type = kind;
  farms = farms;
  next_index = 1;
  amount = amount;
  min_deposit = 1;
  metadata = none;
}

abbrev pub contract : Contract
contract = record {
  owner_id = owner;
  seeds = (seed, seed_of seed ft (farm_id ∷ []) 40) ∷ (pics, seed_of pics nft [] 2) ∷ [];
  farmers = (alice, alice_farmer) ∷ (bob, bob_farmer) ∷ [];
  user_rps = (alice, (farm_id, 0) ∷ []) ∷ [];
  farms = (farm_id, farm) ∷ [];
  outdated_farms = [];
  nft_balance_seeds = (pics, (codes "art", 2) ∷ []) ∷ [];
  farmer_count = 2;
  reward_info = (gold, 50) ∷ [];
  receipts = [];
}

-- alice registers, the owner opens a farm, and alice stakes 2 * 10^18 of its seed
abbrev pub calls : List (Env × Call)
calls =
    (env_of alice 100_000 50 [], Call.storage_deposit none none)
    ∷ (env_of owner 0 60 [], Call.create_simple_farm terms none none none)
    ∷ (env_of seed 0 90 [], Call.ft_on_transfer alice 2_000_000_000_000_000_000 [])
    ∷ []

abbrev pub deployed_contract : Contract
deployed_contract = record {
  owner_id = owner;
  seeds = [];
  farmers = [];
  user_rps = [];
  farms = [];
  outdated_farms = [];
  nft_balance_seeds = [];
  farmer_count = 0;
  reward_info = [];
  receipts = [];
}

abbrev pub reached : Contract
reached = record {
  owner_id = owner;
  seeds =
      (
        seed,
        record {
          seed_id = seed;
          seed_type = ft;
          farms = farm_id ∷ [];
          next_index = 1;
          amount = 2_000_000_000_000_000_000;
          min_deposit = 1_000_000_000_000_000_000;
          metadata = none;
        },
      )
      ∷ [];
  farmers = (alice, farmer_of alice [] ((seed, 2_000_000_000_000_000_000) ∷ []) [] 1) ∷ [];
  user_rps = (alice, (farm_id, 0) ∷ []) ∷ [];
  farms =
      (
        farm_id,
        record {
          farm_id = farm_id;
          terms = terms;
          status = created;
          last_distribution = record { undistributed = 0; unclaimed = 0; rps = 0; rr = 0 };
          amount_of_reward = 0;
          amount_of_claimed = 0;
          amount_of_beneficiary = 0;
        },
      )
      ∷ [];
  outdated_farms = [];
  nft_balance_seeds = [];
  farmer_count = 1;
  reward_info = [];
  receipts = [];
}
