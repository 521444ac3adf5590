-- ===== src/TestNft/Standard.antt =====
-- `NonFungibleToken` of near-contract-standards, as test-nft/src/lib.rs uses it: its operations, and what
-- its documentation and the NEP-171 standard say of them.
use nft_farming.Prelude.{ℕ, ◌≡◌, Bool, true, false, Option, none, some}
use nft_farming.Checked.{Result, Holds, Succeeds}
use nft_farming.Text.{Text}
use nft_farming.Utils.{AccountId}

-- what the host tells a call
pub record NftEnv : Type 0 where
  pub predecessor_account_id : AccountId
  pub attached_deposit : ℕ
  pub prepaid_gas : ℕ

pub record NonFungibleToken : Type 1 where
  pub Tokens : Type 0
  pub Token : Type 0
  pub TokenMetadata : Type 0
  pub ContractMetadata : Type 0
  pub Approvals : Type 0
  pub assert_valid : ContractMetadata → Result (Unit {0})
  pub new : AccountId → Tokens
  pub owner_by_id : Text → Tokens → Option AccountId
  pub nft_token : Text → Tokens → Option Token
  pub mint : NftEnv → Text → AccountId → Option TokenMetadata → Tokens → Result (Tokens × Token)
  pub internal_transfer :
      AccountId
      → AccountId
      → Text
      → Option ℕ
      → Option Text
      → Tokens
      → Result (Tokens × AccountId × Approvals)
  pub nft_transfer : NftEnv → AccountId → Text → Option ℕ → Option Text → Tokens → Result Tokens
  pub nft_resolve_transfer :
      Option Bool → AccountId → AccountId → Text → Approvals → Tokens → Result (Tokens × Bool)

-- What the code relies on.
pub record IsStandard (s : NonFungibleToken) : Type 0 where
  -- A transfer makes the receiver the owner, and returns the owner before.
  pub moves :
      (sender receiver : AccountId) (token : Text) (approval : Option ℕ) (memo : Option Text)
      (tokens : s.Tokens)
      → Holds
          (λ (out : s.Tokens × AccountId × s.Approvals).
            (s.owner_by_id token tokens ≡ some out.1) × (s.owner_by_id token out.0 ≡ some receiver))
          (s.internal_transfer sender receiver token approval memo tokens)
  -- So does a transfer without a call.
  pub hands_over :
      (env : NftEnv) (receiver : AccountId) (token : Text) (approval : Option ℕ)
      (memo : Option Text) (tokens : s.Tokens)
      → Holds
          (λ tokens'. s.owner_by_id token tokens' ≡ some receiver)
          (s.nft_transfer env receiver token approval memo tokens)
  -- A new token belongs to its receiver, and no token had its id.
  pub mints :
      (env : NftEnv) (token : Text) (receiver : AccountId) (metadata : Option s.TokenMetadata)
      (tokens : s.Tokens)
      → Holds
          (λ (out : s.Tokens × s.Token).
            (s.owner_by_id token tokens ≡ none) × (s.owner_by_id token out.0 ≡ some receiver))
          (s.mint env token receiver metadata tokens)
  -- A receiver that returns `false` keeps the token.
  pub keeps :
      (previous receiver : AccountId) (token : Text) (approvals : s.Approvals) (tokens : s.Tokens)
      → Succeeds
          (λ (out : s.Tokens × Bool).
            (s.owner_by_id token out.0 ≡ s.owner_by_id token tokens) × (out.1 ≡ true))
          (s.nft_resolve_transfer (some false) previous receiver token approvals tokens)
  -- A receiver that fails and still owns the token gives it back.
  pub gives_back :
      (previous receiver : AccountId) (token : Text) (approvals : s.Approvals) (tokens : s.Tokens)
      → s.owner_by_id token tokens ≡ some receiver
      → Succeeds
          (λ (out : s.Tokens × Bool). (s.owner_by_id token out.0 ≡ some previous) × (out.1 ≡ false))
          (s.nft_resolve_transfer none previous receiver token approvals tokens)
