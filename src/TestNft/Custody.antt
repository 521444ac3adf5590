-- ===== src/TestNft/Custody.antt =====
-- An NFT on its way to the farming contract (test-nft/src/lib.rs `nft_transfer_call`,
-- ref-farming/src/token_receiver.rs `nft_on_transfer`, and `nft_resolve_transfer`): either it is staked and the
-- farming contract owns it, or it is back with its owner and nothing is staked.
use nft_farming.Prelude.{
  ℕ, ◌≡◌, refl, sym, Bool, true, false, not, Option, none, some, arith, inl, inr, ◌⊎◌, ◌==◌,
}
use nft_farming.Checked.{
  Result, ok, err, ◌>>=◌, Holds, Holds->>=, Holds-bind, Holds-found, Holds-eq-ok, Succeeds,
  Succeeds->>=, ensure, nft_not_on_seed, owner_is_not_signer, not_cross_contract_call,
  not_one_yocto, checked_sub,
}
use nft_farming.Map.{lookup}
use nft_farming.Text.{Text, text_eq}
use nft_farming.Utils.{
  SeedId, AccountId, NftBalance, contract_nft_token_id, get_nft_balance_equivalent,
}
use nft_farming.Contract
use nft_farming.Contract.{Env}
use nft_farming.Stakes.{internal_nft_deposit}
use nft_farming.Stakes.Moves.{moved, HasGrown, HasStaked, internal_nft_deposit-HasStaked}
use nft_farming.Receiver.{nft_on_transfer}
use nft_farming.TestNft
use nft_farming.TestNft.Standard.{NftEnv, NonFungibleToken, IsStandard}

abbrev pub Farming : Type 0
Farming = Contract.Contract

-- What the receiver's call returned, if it did not panic, and the state that it left.
abbrev pub returned : Result (Farming × Bool) → Option Bool
returned (ok out) = some out.1
returned (err e) = none

abbrev pub left_by : Farming → Result (Farming × Bool) → Farming
left_by c (ok out) = out.0
left_by c (err e) = c

module _ (s : NonFungibleToken) where
  -- The call of the farming contract, and the callback.
  unfoldable pub conclude :
      Env
      → Farming
      → TestNft.Contract s × TestNft.TransferCall s
      → Result (Farming × TestNft.Contract s × Bool)
  conclude env c (n, call) = do
    let out = nft_on_transfer env call.sender_id call.previous_owner_id call.token_id call.msg c
    (n', kept) ←
        TestNft.nft_resolve_transfer s (returned out) call.previous_owner_id call.receiver_id
          call.token_id call.approved_account_ids n
    ok (left_by c out, n', kept)

  -- The transfer of an NFT to the farming contract, with all that follows from it.
  unfoldable pub exchange :
      Env
      → NftEnv
      → AccountId
      → Text
      → Option ℕ
      → Option Text
      → Text
      → Farming
      → TestNft.Contract s
      → Result (Farming × TestNft.Contract s × Bool)
  exchange env nft_env receiver_id token_id approval_id memo msg c n =
      TestNft.nft_transfer_call s nft_env receiver_id token_id approval_id memo msg n
      >>= conclude env c

module _ (t : SeedId) where
  -- The stake of an account has grown, in `t`, by what the NFT is worth under the seed.
  abbrev pub HasNftStaked : SeedId → AccountId → Text → Text → Farming → Farming → Type 0
  HasNftStaked seed_id account contract_id token_id c c' =
      (table : NftBalance) × (n : ℕ) × (lookup seed_id c.nft_balance_seeds ≡ some table)
      × (get_nft_balance_equivalent table (contract_nft_token_id contract_id token_id) ≡ some n)
      × HasGrown t account (moved t seed_id n) c c'

  staked_lem :
      (seed_id : SeedId) (account : AccountId) (value : Option ℕ) (c : Farming)
      (out : Farming × Bool)
      → HasStaked t seed_id account value c out
      → out.1 ≡ true
      → (n : ℕ) × (value ≡ some n) × HasGrown t account (moved t seed_id n) c out.0
  staked_lem seed_id account none c out h done = ground (arith, h, done)
  staked_lem seed_id account (some n) c out h done = (n, refl, h.1)

  nft_on_transfer-HasNftStaked :
      (env : Env) (sender_id previous_owner_id : AccountId) (token_id msg : Text) (c : Farming)
      → Holds
          (λ (out : Farming × Bool).
            (out.1 ≡ false)
            × HasNftStaked msg previous_owner_id env.predecessor_account_id token_id c out.0)
          (nft_on_transfer env sender_id previous_owner_id token_id msg c)
  unfolding nft_on_transfer
  nft_on_transfer-HasNftStaked env sender_id previous_owner_id token_id msg c =
      let contract_id = env.predecessor_account_id in
      let signer_id = env.signer_account_id in
      Holds-bind _ (ensure (not (text_eq contract_id signer_id)) not_cross_contract_call) _ λ _ _.
        Holds-bind _ (ensure (text_eq previous_owner_id signer_id) owner_is_not_signer) _ λ _ _.
          Holds->>= _ _ (internal_nft_deposit env msg previous_owner_id contract_id token_id c) _
            (internal_nft_deposit-HasStaked t env msg previous_owner_id contract_id token_id c)
            λ (out : Farming × Bool) (table, known, done).
              Holds-bind _ (ensure out.1 nft_not_on_seed) _ λ _ taken.
                let (n, worth, grown) =
                  staked_lem msg previous_owner_id _ c out done (ground (arith, taken)) in
                (refl, (table, n, known, worth, grown))

  module _ (s : NonFungibleToken) where
    -- Who owns the NFT in the end, and what the farming contract has recorded of it.
    abbrev pub HasCustody :
        Env
        → AccountId
        → Text
        → Text
        → Farming
        → TestNft.Contract s
        → Farming × TestNft.Contract s × Bool
        → Type 0
    HasCustody env receiver_id token_id msg c n (c', n', kept) =
        (owner : AccountId) × (s.owner_by_id token_id n.tokens ≡ some owner)
        × (((kept ≡ true)
              × (s.owner_by_id token_id n'.tokens ≡ some receiver_id)
              × HasNftStaked msg owner env.predecessor_account_id token_id c c')
            ⊎ ((kept ≡ false) × (s.owner_by_id token_id n'.tokens ≡ some owner) × (c' ≡ c)))

  module _ (s : NonFungibleToken) (laws : IsStandard s) where
    resolved :
        (env : Env) (receiver_id : AccountId) (token_id msg : Text) (owner : AccountId)
        (approvals : s.Approvals) (c : Farming) (n n₁ : TestNft.Contract s)
        (out : Result (Farming × Bool))
        → s.owner_by_id token_id n.tokens ≡ some owner
        → s.owner_by_id token_id n₁.tokens ≡ some receiver_id
        → Holds
            (λ (o : Farming × Bool).
              (o.1 ≡ false) × HasNftStaked msg owner env.predecessor_account_id token_id c o.0)
            out
        → Succeeds
            (λ (r : TestNft.Contract s × Bool).
              HasCustody s env receiver_id token_id msg c n (left_by c out, r.0, r.1))
            (TestNft.nft_resolve_transfer s (returned out) owner receiver_id token_id approvals n₁)
    unfolding TestNft.nft_resolve_transfer
    resolved env receiver_id token_id msg owner approvals c n n₁ (ok (c', b)) before now
          (declines, staked) =
        rw declines (
          Succeeds->>= _ _
            (s.nft_resolve_transfer (some false) owner receiver_id token_id approvals n₁.tokens) _
            (laws.keeps owner receiver_id token_id approvals n₁.tokens)
            λ (r : s.Tokens × Bool) p. (owner, before, inl (p.1, cc (p.0, now), staked)))
    resolved env receiver_id token_id msg owner approvals c n n₁ (err e) before now h =
        Succeeds->>= _ _
          (s.nft_resolve_transfer none owner receiver_id token_id approvals n₁.tokens) _
          (laws.gives_back owner receiver_id token_id approvals n₁.tokens now)
          λ (r : s.Tokens × Bool) p. (owner, before, inr (p.1, p.0, refl))

    abbrev IsHandedOver :
        AccountId
        → Text
        → Text
        → TestNft.Contract s
        → TestNft.Contract s × TestNft.TransferCall s
        → Type 0
    IsHandedOver receiver_id token_id msg n (n₁, call) =
        (s.owner_by_id token_id n.tokens ≡ some call.previous_owner_id)
        × (s.owner_by_id token_id n₁.tokens ≡ some receiver_id)
        × (call.token_id ≡ token_id)
        × (call.receiver_id ≡ receiver_id)
        × (call.msg ≡ msg)

    nft_transfer_call-IsHandedOver :
        (nft_env : NftEnv) (receiver_id : AccountId) (token_id : Text) (approval_id : Option ℕ)
        (memo : Option Text) (msg : Text) (n : TestNft.Contract s)
        → Holds
            (IsHandedOver receiver_id token_id msg n)
            (TestNft.nft_transfer_call s nft_env receiver_id token_id approval_id memo msg n)
    unfolding TestNft.nft_transfer_call
    nft_transfer_call-IsHandedOver nft_env receiver_id token_id approval_id memo msg n =
        Holds-bind _ (ensure (nft_env.attached_deposit == 1) not_one_yocto) _ λ _ _.
          Holds->>= _ _
            (s.internal_transfer nft_env.predecessor_account_id receiver_id token_id approval_id
              memo n.tokens)
            _
            (laws.moves nft_env.predecessor_account_id receiver_id token_id approval_id memo
              n.tokens)
            λ (out : s.Tokens × AccountId × s.Approvals) p.
              Holds-bind _ (checked_sub nft_env.prepaid_gas TestNft.gas_for_ft_transfer_call) _
                λ gas _. (p.0, p.1, refl, refl, refl)

    -- The part after the transfer.
    after_transfer :
        (env : Env) (receiver_id : AccountId) (token_id msg : Text) (c : Farming)
        (n : TestNft.Contract s) (sent : TestNft.Contract s × TestNft.TransferCall s)
        → IsHandedOver receiver_id token_id msg n sent
        → Succeeds (HasCustody s env receiver_id token_id msg c n) (conclude s env c sent)
    unfolding conclude
    after_transfer env receiver_id token_id msg c n (n₁, call) h =
        let out =
          nft_on_transfer env call.sender_id call.previous_owner_id call.token_id call.msg c in
        rw (sym h.2, sym h.3, sym h.4)
          (Succeeds->>= _ _
            (TestNft.nft_resolve_transfer s (returned out) call.previous_owner_id call.receiver_id
              call.token_id call.approved_account_ids n₁)
            _
            (resolved env call.receiver_id call.token_id call.msg call.previous_owner_id
              call.approved_account_ids c n n₁ out (rw h.2 h.0) (rw (h.2, h.3) h.1)
              (nft_on_transfer-HasNftStaked env call.sender_id call.previous_owner_id call.token_id
                call.msg c))
            λ (r : TestNft.Contract s × Bool) p. p)

    -- With a standard NFT contract: where sending an NFT to the farming contract by
    -- `nft_transfer_call` does not panic, the whole exchange succeeds, and in the end either the
    -- receiver owns the NFT and the stake of its former owner has grown by the NFT's value, or the
    -- former owner has it back and the farming contract is as before.
    pub exchange-HasCustody :
        (env : Env) (nft_env : NftEnv) (receiver_id : AccountId) (token_id : Text)
        (approval_id : Option ℕ) (memo : Option Text) (msg : Text) (c : Farming)
        (n : TestNft.Contract s)
        → Holds
            (λ _.
              Succeeds
                (HasCustody s env receiver_id token_id msg c n)
                (exchange s env nft_env receiver_id token_id approval_id memo msg c n))
            (TestNft.nft_transfer_call s nft_env receiver_id token_id approval_id memo msg n)
    unfolding exchange
    exchange-HasCustody env nft_env receiver_id token_id approval_id memo msg c n =
        let m = TestNft.nft_transfer_call s nft_env receiver_id token_id approval_id memo msg n in
        Holds-found _ m λ sent e. rw e (
          after_transfer env receiver_id token_id msg c n sent (
            Holds-eq-ok (IsHandedOver receiver_id token_id msg n)
              (nft_transfer_call-IsHandedOver nft_env receiver_id token_id approval_id memo msg n)
              e))
