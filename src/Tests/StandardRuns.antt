-- ===== src/Tests/StandardRuns.antt =====
-- The exchange of bob's NFT with the farming contract, and a token that is minted and burnt.
use nft_farming.Prelude.{refl, none, some, [], ◌∷◌, arith}
use nft_farming.Checked.{Holds, Succeeds}
use nft_farming.Text.{codes, text_eq}
use nft_farming.Map.{lookup}
use nft_farming.Contract.{Env}
use nft_farming.TestNft
use nft_farming.TestNft.Standard.{NftEnv}
use nft_farming.TestNft.Custody.{exchange, HasCustody, exchange-HasCustody}
use nft_farming.TestToken
use nft_farming.TestToken.Supply.{HasMinted, HasBurnt, mint-burn}
use nft_farming.Tests.Standards.{owners, owners-IsStandard, balances, balances-IsStandard}
use nft_farming.Tests.Data.{alice, bob, pics, contract, env_of}

-- the contract "art" calls, in a transaction that bob has signed
abbrev env : Env
env = record (env_of (codes "art") 0 230 []) { signer_account_id = bob }

abbrev nft_env : NftEnv
nft_env = record {
  predecessor_account_id = bob;
  attached_deposit = 1;
  prepaid_gas = 100_000_000_000_000;
}

abbrev nfts : TestNft.Contract owners
nfts = record { tokens = (codes "8", bob) ∷ []; metadata = some tt }

exchange-HasCustody_example :
    Holds
      (λ _.
        Succeeds
          (HasCustody pics owners env (codes "farming") (codes "8") pics contract nfts)
          (exchange owners env nft_env (codes "farming") (codes "8") none none pics contract nfts))
      (TestNft.nft_transfer_call owners nft_env (codes "farming") (codes "8") none none pics nfts)
exchange-HasCustody_example =
    exchange-HasCustody pics owners owners-IsStandard env nft_env (codes "farming") (codes "8") none
      none pics contract nfts

abbrev tokens : TestToken.Contract balances
tokens = record { token = ((bob, 7) ∷ [], 7) }

mint-burn_example :
    Succeeds
      (λ c₁.
        HasMinted balances alice 100 tokens c₁
        × Succeeds (HasBurnt balances alice 40 c₁) (TestToken.burn balances alice 40 c₁)
        × Holds (λ _. ⊥) (TestToken.mint balances alice 5 c₁))
      (TestToken.mint balances alice 100 tokens)
unfolding lookup text_eq
mint-burn_example =
    mint-burn balances balances-IsStandard alice 100 40 5 tokens refl (omega arith) (omega arith)
