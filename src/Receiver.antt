-- ===== src/Receiver.antt =====
-- ref-farming/src/token_receiver.rs: receiving seed tokens, reward tokens and NFTs.
use nft_farming.Prelude.{ℕ, Bool, true, false, not, none, some, [], leb, if◌then◌else◌}
use nft_farming.Checked.{
  Result, ok, err, err34_below_min_seed_deposited, err41_farm_not_exist, err43_invalid_farm_status,
  err44_invalid_farm_reward, wrong_seed_type, not_cross_contract_call, owner_is_not_signer,
  nft_not_on_seed, ◌>>=◌, ◌>>◌, ensure, expect, checked_add, u128_mod,
}
use nft_farming.Map.{lookup, insert, unwrap_or}
use nft_farming.Text.{Text, text_eq}
use nft_farming.Utils.{AccountId}
use nft_farming.Farm.Lifecycle.{add_reward}
use nft_farming.Contract.{Contract, Env}
use nft_farming.Claims.{get_seed}
use nft_farming.Stakes.{is_nft, internal_seed_deposit, internal_nft_deposit}
use nft_farming.Storage.{assert_storage_usage}

-- A deposit of seed tokens by `sender`, from the token contract that calls.
unfoldable pub receive_seed : Env → AccountId → ℕ → Contract → Result Contract
receive_seed env sender amount c = do
  let seed_id = env.predecessor_account_id
  seed_farm ← get_seed seed_id c
  ensure (not (is_nft seed_farm.seed_type)) wrong_seed_type
  ensure (leb seed_farm.min_deposit amount) err34_below_min_seed_deposited
  c' ← internal_seed_deposit env seed_id sender amount c
  assert_storage_usage env sender c'
  ok c'

-- A deposit of reward tokens for the farm that `msg` names.
unfoldable pub receive_reward : Env → ℕ → Text → Contract → Result Contract
receive_reward env amount farm_id c = do
  let token = env.predecessor_account_id
  farm ← expect (lookup farm_id c.farms) err41_farm_not_exist
  ensure (text_eq farm.terms.reward_token token) err44_invalid_farm_reward
  (farm', cur_remain) ← add_reward env.block_timestamp amount farm
  elim cur_remain [
    | none ↦ err err43_invalid_farm_status
    | some _ ↦ do
      sum ← checked_add u128_mod (unwrap_or (lookup token c.reward_info) 0) amount
      ok (record c {
        farms = insert farm_id farm' c.farms;
        reward_info = insert token sum c.reward_info;
      })
  ]

abbrev pub is_empty_text : Text → Bool
is_empty_text s = elim s [ [] ↦ true | _ ↦ false ]

-- Returns the amount that is not used, which is always 0.
unfoldable pub ft_on_transfer : Env → AccountId → ℕ → Text → Contract → Result (Contract × ℕ)
ft_on_transfer env sender_id amount msg c = do
  c' ←
      if is_empty_text msg
      then receive_seed env sender_id amount c
      else receive_reward env amount msg c
  ok (c', 0)

-- Returns whether the NFT goes back, which is always `false`.
unfoldable pub nft_on_transfer :
    Env → AccountId → AccountId → Text → Text → Contract → Result (Contract × Bool)
nft_on_transfer env sender_id previous_owner_id token_id msg c = do
  let nft_contract_id = env.predecessor_account_id
  let signer_id = env.signer_account_id
  ensure (not (text_eq nft_contract_id signer_id)) not_cross_contract_call
  ensure (text_eq previous_owner_id signer_id) owner_is_not_signer
  (c', deposit_res) ← internal_nft_deposit env msg previous_owner_id nft_contract_id token_id c
  ensure deposit_res nft_not_on_seed
  ok (c', false)
