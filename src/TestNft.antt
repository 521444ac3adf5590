-- ===== src/TestNft.antt =====
-- test-nft/src/lib.rs: the NFT contract of the simulation tests, a shell around `NonFungibleToken` of
-- near-contract-standards, which is a parameter here with what its documentation says of it. Logs are
-- left out.
pub mod Standard
pub mod Custody
use nft_farming.Prelude.{ℕ, ◌+◌, Bool, false, not, Option, none, some, [], ◌∷◌, ◌==◌}
use nft_farming.Checked.{
  Result, ok, not_one_yocto, already_initialized, unwrap_none, ◌>>=◌, ◌>>◌, ensure, expect,
  checked_sub,
}
use nft_farming.Map.{Map}
use nft_farming.Text.{Text}
use nft_farming.Utils.{AccountId}
use nft_farming.TestNft.Standard.{NftEnv, NonFungibleToken}

abbrev pub gas_for_resolve_transfer : ℕ
gas_for_resolve_transfer = 10_000_000_000_000

abbrev pub gas_for_ft_transfer_call : ℕ
gas_for_ft_transfer_call = 30_000_000_000_000 + gas_for_resolve_transfer

abbrev pub no_deposit : ℕ
no_deposit = 0

module _ (s : NonFungibleToken) where
  open s use {Tokens, Token, TokenMetadata, ContractMetadata, Approvals}

  pub record Contract : Type 0 where
    pub tokens : Tokens
    pub metadata : Option ContractMetadata

  -- the call of the receiver, and the callback that follows it
  pub record TransferCall : Type 0 where
    pub sender_id : AccountId
    pub previous_owner_id : AccountId
    pub token_id : Text
    pub msg : Text
    pub receiver_id : AccountId
    pub deposit : ℕ
    pub gas : ℕ
    pub approved_account_ids : Approvals
    pub resolve_gas : ℕ

  unfoldable pub new : Bool → AccountId → ContractMetadata → Result Contract
  new state_exists owner_id metadata = do
    ensure (not state_exists) already_initialized
    s.assert_valid metadata
    ok (record { tokens = s.new owner_id; metadata = some metadata })

  unfoldable pub nft_mint :
      NftEnv → Text → AccountId → TokenMetadata → Contract → Result (Contract × Token)
  nft_mint env token_id receiver_id token_metadata c = do
    (tokens, token) ← s.mint env token_id receiver_id (some token_metadata) c.tokens
    ok (record c { tokens = tokens }, token)

  unfoldable pub nft_transfer_payout :
      NftEnv → AccountId → Text → ℕ → ℕ → ℕ → Contract → Result (Contract × Map ℕ)
  nft_transfer_payout env receiver_id token_id approval_id balance max_len_payout c = do
    ensure (env.attached_deposit == 1) not_one_yocto
    owner_id ← expect (s.owner_by_id token_id c.tokens) unwrap_none
    tokens ← s.nft_transfer env receiver_id token_id (some approval_id) none c.tokens
    ok (record c { tokens = tokens }, (owner_id, balance) ∷ [])

  unfoldable pub nft_transfer_call :
      NftEnv
      → AccountId
      → Text
      → Option ℕ
      → Option Text
      → Text
      → Contract
      → Result (Contract × TransferCall)
  nft_transfer_call env receiver_id token_id approval_id memo msg c = do
    ensure (env.attached_deposit == 1) not_one_yocto
    let sender_id = env.predecessor_account_id
    (tokens, old_owner, old_approvals) ←
        s.internal_transfer sender_id receiver_id token_id approval_id memo c.tokens
    gas ← checked_sub env.prepaid_gas gas_for_ft_transfer_call
    ok (
      record c { tokens = tokens },
      record {
        sender_id = sender_id;
        previous_owner_id = old_owner;
        token_id = token_id;
        msg = msg;
        receiver_id = receiver_id;
        deposit = no_deposit;
        gas = gas;
        approved_account_ids = old_approvals;
        resolve_gas = gas_for_resolve_transfer;
      },
    )

  unfoldable pub nft_transfer :
      NftEnv → AccountId → Text → Option ℕ → Option Text → Contract → Result Contract
  nft_transfer env receiver_id token_id approval_id memo c = do
    tokens ← s.nft_transfer env receiver_id token_id approval_id memo c.tokens
    ok (record c { tokens = tokens })

  unfoldable pub nft_token : Text → Contract → Option Token
  nft_token token_id c = s.nft_token token_id c.tokens

  unfoldable pub mint :
      NftEnv → Text → AccountId → Option TokenMetadata → Contract → Result (Contract × Token)
  mint env token_id token_owner_id token_metadata c = do
    (tokens, token) ← s.mint env token_id token_owner_id token_metadata c.tokens
    ok (record c { tokens = tokens }, token)

  unfoldable pub nft_metadata : Contract → Result ContractMetadata
  nft_metadata c = expect c.metadata unwrap_none

  -- `returned` is what the receiver's call returned, if it did not fail.
  unfoldable pub nft_resolve_transfer :
      Option Bool → AccountId → AccountId → Text → Approvals → Contract → Result (Contract × Bool)
  nft_resolve_transfer returned previous_owner_id receiver_id token_id approved_account_ids c = do
    (tokens, resp) ←
        s.nft_resolve_transfer returned previous_owner_id receiver_id token_id approved_account_ids
          c.tokens
    ok (record c { tokens = tokens }, resp)
