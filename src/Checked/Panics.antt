-- ===== src/Checked/Panics.antt =====
-- The panics of the contract, one constructor for each message of ref-farming/src/errors.rs that
-- the code uses and for each other way to panic, and the monad of code that may panic.
use mathlib.Core.Path.{◌≡◌, refl}
use nft_farming.Prelude.{Bool, true, false, Option, none, some, if◌then◌else◌}

pub data Error : Type 0 where
  err10_acc_not_registered err11_insufficient_storage : Error
  err12_storage_unregister_rewards_not_empty err13_storage_unregister_seed_not_empty : Error
  err14_acc_already_registered err21_token_not_reg err22_not_enough_tokens : Error
  err25_callback_post_withdraw_invalid err31_seed_not_exist err32_not_enough_seed : Error
  err33_invalid_seed_id err34_below_min_seed_deposited err41_farm_not_exist : Error
  err42_invalid_farm_id err43_invalid_farm_status err44_invalid_farm_reward err500 : Error
  -- arithmetic out of range, division by zero, `unwrap` of `None`, `unreachable!`
  overflow division_by_zero unwrap_none unreachable_code : Error
  -- `assert_owner`, `assert_one_yocto`, and the messages that have no constant
  err_not_allowed not_one_yocto already_initialized wrong_seed_type use_withdraw_nft : Error
  not_cross_contract_call owner_is_not_signer nft_not_on_seed : Error

pub data Result {ℓ} (A : Type ℓ) : Type ℓ where
  ok : A → Result A
  err : Error → Result A

-- `assert!(test, error)`
abbrev pub ensure : Bool → Error → Result (Unit {0})
ensure false panic = err panic
ensure true panic = ok tt

-- `option.expect(error)`
abbrev pub expect {ℓ} : {A : Type ℓ} → Option A → Error → Result A
expect none e = err e
expect (some a) e = ok a

infixl 5 ◌>>=◌
abbrev pub ◌>>=◌ {ℓ κ} : {V : Type ℓ} {W : Type κ} → Result V → (V → Result W) → Result W
err panic >>= next = err panic
ok v >>= next = next v

infixl 5 ◌>>◌
abbrev pub ◌>>◌ {ℓ} : {W : Type ℓ} → Result (Unit {0}) → Result W → Result W
first >> next = first >>= λ _. next

-- Where two steps succeed, the first one did, with a value from which the second went on.
pub >>=-eq-ok {ℓ κ} :
    {V : Type ℓ} {W : Type κ} (first : Result V) (next : V → Result W) {w : W}
    → (first >>= next) ≡ ok w
    → (v : V) × (first ≡ ok v) × (next v ≡ ok w)
>>=-eq-ok (err panic) next e = cc
>>=-eq-ok (ok v) next e = (v, refl, e)

-- What holds of the value, if the code does not panic.
abbrev pub Holds {ℓ κ} : {A : Type ℓ} → (A → Type κ) → Result A → Type κ
Holds P (ok a) = P a
Holds P (err e) = Unit

-- The code does not panic, and `P` holds of its value.
abbrev pub Succeeds {ℓ} : {A : Type ℓ} → (A → Type 0) → Result A → Type 0
Succeeds P (ok a) = P a
Succeeds P (err e) = ⊥

pub Holds->>= {ℓ κ} :
    {A B : Type ℓ} (P : A → Type κ) (Q : B → Type κ) (m : Result A) (f : A → Result B)
    → Holds P m
    → ((a : A) → P a → Holds Q (f a))
    → Holds Q (m >>= f)
Holds->>= P Q (ok a) f h k = k a h
Holds->>= P Q (err e) f h k = tt

-- The same where the first step says nothing of its value but where it came from.
pub Holds-bind {ℓ κ} :
    {A B : Type ℓ} (Q : B → Type κ) (m : Result A) (f : A → Result B)
    → ((a : A) → m ≡ ok a → Holds Q (f a))
    → Holds Q (m >>= f)
Holds-bind Q (ok a) f k = k a refl
Holds-bind Q (err e) f k = tt

pub Holds-if {ℓ κ} :
    {A : Type ℓ} (Q : A → Type κ) (b : Bool) (m n : Result A)
    → (b ≡ true → Holds Q m)
    → (b ≡ false → Holds Q n)
    → Holds Q (if b then m else n)
Holds-if Q true m n hm hn = hm refl
Holds-if Q false m n hm hn = hn refl

pub Succeeds->>= {ℓ} :
    {A B : Type ℓ} (P : A → Type 0) (Q : B → Type 0) (m : Result A) (f : A → Result B)
    → Succeeds P m
    → ((a : A) → P a → Succeeds Q (f a))
    → Succeeds Q (m >>= f)
Succeeds->>= P Q (ok a) f h k = k a h
Succeeds->>= P Q (err e) f h k = absurd h

-- Both of two facts.
pub Holds-both {ℓ κ ι} :
    {A : Type ℓ} (P : A → Type κ) (Q : A → Type ι) (m : Result A)
    → Holds P m
    → Holds Q m
    → Holds (λ a. P a × Q a) m
Holds-both P Q (ok a) p q = (p, q)
Holds-both P Q (err e) p q = tt

-- A weaker fact.
pub Holds-map {ℓ κ ι} :
    {A : Type ℓ} (P : A → Type κ) (Q : A → Type ι) (m : Result A)
    → Holds P m
    → ((a : A) → P a → Q a)
    → Holds Q m
Holds-map P Q (ok a) p k = k a p
Holds-map P Q (err e) p k = tt

-- What holds of every value holds of the value that came out.
pub Holds-eq-ok {ℓ κ} :
    {A : Type ℓ} (P : A → Type κ) {m : Result A} {a : A} → Holds P m → m ≡ ok a → P a
Holds-eq-ok P h e = rw e at h

-- It is enough to look at the value that came out.
pub Holds-found {ℓ κ} :
    {A : Type ℓ} (P : A → Type κ) (m : Result A) → ((a : A) → m ≡ ok a → P a) → Holds P m
Holds-found P (ok a) k = k a refl
Holds-found P (err e) k = tt

-- A family of facts about the one value.
pub Holds-all {ℓ κ ι} :
    {I : Type ι} {A : Type ℓ} (P : I → A → Type κ) (m : Result A)
    → ((i : I) → Holds (P i) m)
    → Holds (λ a. (i : I) → P i a) m
Holds-all P (ok a) k = k
Holds-all P (err e) k = tt

-- What holds of every value holds of the one that comes out.
pub Succeeds-both {ℓ} :
    {A : Type ℓ} (P Q : A → Type 0) (m : Result A)
    → Succeeds P m
    → Holds Q m
    → Succeeds (λ a. P a × Q a) m
Succeeds-both P Q (ok a) p q = (p, q)
Succeeds-both P Q (err e) p q = absurd p

-- A weaker fact.
pub Succeeds-map {ℓ} :
    {A : Type ℓ} (P Q : A → Type 0) (m : Result A)
    → Succeeds P m
    → ((a : A) → P a → Q a)
    → Succeeds Q m
Succeeds-map P Q (ok a) p k = k a p
Succeeds-map P Q (err e) p k = absurd p
