-- ===== src/TestToken/Supply.antt =====
-- What minting and burning do to the balance of an account and to the supply (test-token/src/lib.rs).
use nft_farming.Prelude.{ℕ, ◌+◌, ◌≡◌, ◌<◌, ◌≤◌, some, none, arith}
use nft_farming.Checked.{
  Holds, Holds->>=, Succeeds, Succeeds->>=, Succeeds-both, Succeeds-map, u128_mod,
}
use nft_farming.Utils.{AccountId}
use nft_farming.TestToken
use nft_farming.TestToken.{mint, burn}
use nft_farming.TestToken.Standard.{FungibleToken, IsStandard}

module _ (s : FungibleToken) where
  -- The account and the supply after minting for an account, which had no entry.
  abbrev pub HasMinted : AccountId → ℕ → TestToken.Contract s → TestToken.Contract s → Type 0
  HasMinted id amount c c' =
      (s.account id c.token ≡ none)
      × (s.account id c'.token ≡ some amount)
      × (s.total_supply c'.token ≡ s.total_supply c.token + amount)

  -- The account and the supply after burning.
  abbrev pub HasBurnt : AccountId → ℕ → TestToken.Contract s → TestToken.Contract s → Type 0
  HasBurnt id amount c c' =
      (n : ℕ) × (s.account id c.token ≡ some (n + amount))
      × (s.account id c'.token ≡ some n)
      × (s.total_supply c.token ≡ s.total_supply c'.token + amount)

module _ (s : FungibleToken) (laws : IsStandard s) where
  mint-Succeeds :
      (id : AccountId) (amount : ℕ) (c : TestToken.Contract s)
      → s.account id c.token ≡ none
      → s.total_supply c.token + amount < u128_mod
      → Succeeds (HasMinted s id amount c) (mint s id amount c)
  unfolding mint
  mint-Succeeds id amount c absent fits =
      Succeeds->>= _ _ (s.internal_register_account id c.token) _
        (Succeeds-both _ _ _ (laws.registers_new id c.token absent) (laws.registers id c.token))
        λ t r.
          Succeeds->>= _ _ (s.internal_deposit id amount t) _
            (Succeeds-both _ _ _
              (laws.deposits_fitting id amount 0 t (ground (arith, r)) (omega (arith, fits))
                (ground (arith, r, fits)))
              (laws.deposits id amount t))
            λ t' d. ground (arith, r, d)

  -- An account with an entry cannot be minted for again.
  mint_again :
      (id : AccountId) (amount n : ℕ) (c : TestToken.Contract s)
      → s.account id c.token ≡ some n
      → Holds (λ _. ⊥) (mint s id amount c)
  unfolding mint
  mint_again id amount n c there =
      Holds->>= _ _ (s.internal_register_account id c.token) _ (laws.registers id c.token)
        λ t r. absurd (ground (arith, r, there))

  burn-Succeeds :
      (id : AccountId) (amount n : ℕ) (c : TestToken.Contract s)
      → s.account id c.token ≡ some n
      → amount ≤ n
      → amount ≤ s.total_supply c.token
      → Succeeds (HasBurnt s id amount c) (burn s id amount c)
  unfolding burn
  burn-Succeeds id amount n c there enough supply =
      Succeeds->>= _ _ (s.internal_withdraw id amount c.token) _
        (Succeeds-both _ _ _ (laws.withdraws_covered id amount n c.token there enough supply)
          (laws.withdraws id amount c.token))
        λ t d. (d.1.0, d.1.2, d.1.1, d.1.3)

  -- With a standard token: minting for an account without an entry, where the supply stays within
  -- 128 bits, succeeds and gives the account just the amount; burning no more than that then
  -- succeeds and takes it from the account and the supply; and minting for the account again
  -- panics.
  pub mint-burn :
      (id : AccountId) (amount n again : ℕ) (c : TestToken.Contract s)
      → s.account id c.token ≡ none
      → s.total_supply c.token + amount < u128_mod
      → n ≤ amount
      → Succeeds
          (λ c₁.
            HasMinted s id amount c c₁
            × Succeeds (HasBurnt s id n c₁) (burn s id n c₁)
            × Holds (λ _. ⊥) (mint s id again c₁))
          (mint s id amount c)
  mint-burn id amount n again c absent fits less =
      Succeeds-map _
        (λ c₁.
          HasMinted s id amount c c₁
          × Succeeds (HasBurnt s id n c₁) (burn s id n c₁)
          × Holds (λ _. ⊥) (mint s id again c₁))
        _ (mint-Succeeds id amount c absent fits)
        λ c₁ h. (
          h,
          burn-Succeeds id n amount c₁ h.1 less (ground (arith, h, less)),
          mint_again id again amount c₁ h.1,
        )
