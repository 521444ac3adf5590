-- ===== src/TestToken.antt =====
-- test-token/src/lib.rs: the token contract of the simulation tests, a shell around `FungibleToken` of
-- near-contract-standards, which is a parameter here with what its documentation says of it.
pub mod Standard
pub mod Supply
use nft_farming.Prelude.{ℕ}
use nft_farming.Checked.{Result, ok, ◌>>=◌}
use nft_farming.Text.{codes}
use nft_farming.Utils.{AccountId}
use nft_farming.TestToken.Standard.{FungibleToken}

module _ (s : FungibleToken) where
  pub record Contract : Type 0 where
    pub token : s.Token

  unfoldable pub new : Contract
  new = record { token = s.new (codes "t") }

  -- It registers the account, and so it mints for an account only once.
  unfoldable pub mint : AccountId → ℕ → Contract → Result Contract
  mint account_id amount c = do
    token ← s.internal_register_account account_id c.token
    token' ← s.internal_deposit account_id amount token
    ok (record { token = token' })

  unfoldable pub burn : AccountId → ℕ → Contract → Result Contract
  burn account_id amount c = do
    token ← s.internal_withdraw account_id amount c.token
    ok (record { token = token })
