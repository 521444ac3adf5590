-- ===== src/TestToken/Standard.antt =====
-- `FungibleToken` of near-contract-standards, as test-token/src/lib.rs uses it: its operations, and what its
-- documentation says of them.
use nft_farming.Prelude.{ℕ, ◌+◌, ◌≡◌, ◌≤◌, ◌<◌, Option, none, some}
use nft_farming.Checked.{Result, Holds, Succeeds, u128_mod}
use nft_farming.Text.{Text}
use nft_farming.Utils.{AccountId}

pub record FungibleToken : Type 1 where
  pub Token : Type 0
  pub new : Text → Token
  -- the entry of `accounts`
  pub account : AccountId → Token → Option ℕ
  pub total_supply : Token → ℕ
  pub internal_register_account : AccountId → Token → Result Token
  pub internal_deposit : AccountId → ℕ → Token → Result Token
  pub internal_withdraw : AccountId → ℕ → Token → Result Token

module _ (s : FungibleToken) where
  -- Registering makes an entry of 0 for an account without one, and panics for any other.
  abbrev pub HasRegistered : AccountId → s.Token → s.Token → Type 0
  HasRegistered id t t' =
      (s.account id t ≡ none) × (s.account id t' ≡ some 0) × (s.total_supply t' ≡ s.total_supply t)

  -- A deposit adds to the entry and to the supply.
  abbrev pub HasDeposited : AccountId → ℕ → s.Token → s.Token → Type 0
  HasDeposited id amount t t' =
      (n : ℕ) × (s.account id t ≡ some n)
      × (s.account id t' ≡ some (n + amount))
      × (s.total_supply t' ≡ s.total_supply t + amount)

  -- What the code relies on.
  pub record IsStandard : Type 0 where
    pub fresh : (prefix : Text) (id : AccountId) → s.account id (s.new prefix) ≡ none
    pub empty : (prefix : Text) → s.total_supply (s.new prefix) ≡ 0
    pub registers :
        (id : AccountId) (t : s.Token)
        → Holds (HasRegistered id t) (s.internal_register_account id t)
    pub registers_new :
        (id : AccountId) (t : s.Token)
        → s.account id t ≡ none
        → Succeeds (λ _. Unit) (s.internal_register_account id t)
    pub deposits :
        (id : AccountId) (amount : ℕ) (t : s.Token)
        → Holds (HasDeposited id amount t) (s.internal_deposit id amount t)
    pub deposits_fitting :
        (id : AccountId) (amount n : ℕ) (t : s.Token)
        → s.account id t ≡ some n
        → n + amount < u128_mod
        → s.total_supply t + amount < u128_mod
        → Succeeds (λ _. Unit) (s.internal_deposit id amount t)
    pub withdraws :
        (id : AccountId) (amount : ℕ) (t : s.Token)
        → Holds (λ t'. HasDeposited id amount t' t) (s.internal_withdraw id amount t)
    pub withdraws_covered :
        (id : AccountId) (amount n : ℕ) (t : s.Token)
        → s.account id t ≡ some n
        → amount ≤ n
        → amount ≤ s.total_supply t
        → Succeeds (λ _. Unit) (s.internal_withdraw id amount t)
