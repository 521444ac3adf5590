-- ===== src/Tests/Standards.antt =====
-- Token standards that keep a map of owners and a map of balances: they meet what the contracts of the
-- simulation tests rely on.
use nft_farming.Prelude.{ℕ, refl, Bool, true, false, none, some, [], arith, if◌then◌else◌}
use nft_farming.Checked.{
  Result, ok, err, err_not_allowed, err10_acc_not_registered, err14_acc_already_registered,
  unwrap_none, ◌>>=◌, ◌>>◌, ensure, expect, Holds-bind, checked_add, checked_sub, u128_mod,
}
use nft_farming.Text.{Text, text_eq, text_eq_refl}
use nft_farming.Map.{Map, lookup, insert, lookup-insert_self, is_some}
use nft_farming.Utils.{AccountId}
use nft_farming.TestNft.Standard as Nft
use nft_farming.TestToken.Standard as Ft

abbrev hand_over :
    AccountId → AccountId → Text → Map AccountId → Result (Map AccountId × AccountId × Unit {0})
hand_over sender receiver token tokens = do
  owner ← expect (lookup token tokens) unwrap_none
  ensure (text_eq owner sender) err_not_allowed
  ok (insert token receiver tokens, owner, tt)

abbrev give_back : AccountId → AccountId → Text → Map AccountId → Result (Map AccountId × Bool)
give_back previous receiver token tokens = elim (lookup token tokens) [
  | none ↦ ok (tokens, true)
  | some owner ↦
      if text_eq owner receiver then ok (insert token previous tokens, false) else ok (tokens, true)
]

abbrev pub owners : Nft.NonFungibleToken
owners = record {
  Tokens = Map AccountId;
  Token = AccountId;
  TokenMetadata = Unit;
  ContractMetadata = Unit;
  Approvals = Unit;
  assert_valid = λ metadata. ok tt;
  new = λ owner. [];
  owner_by_id = λ token tokens. lookup token tokens;
  nft_token = λ token tokens. lookup token tokens;
  mint = λ env token receiver metadata tokens.
      if is_some (lookup token tokens)
      then err err_not_allowed
      else ok (insert token receiver tokens, receiver);
  internal_transfer =
      λ sender receiver token approval memo tokens. hand_over sender receiver token tokens;
  nft_transfer = λ env receiver token approval memo tokens. do
    (tokens', _, _) ← hand_over env.predecessor_account_id receiver token tokens
    ok tokens';
  nft_resolve_transfer = λ returned previous receiver token approvals tokens. elim returned [
    | none ↦ give_back previous receiver token tokens
    | some back ↦ if back then give_back previous receiver token tokens else ok (tokens, true)
  ];
}

pub owners-IsStandard : Nft.IsStandard owners
owners-IsStandard = record {
  moves = λ sender receiver token approval memo tokens. grind (arith, lookup-insert_self);
  hands_over = λ env receiver token approval memo tokens. grind (arith, lookup-insert_self);
  mints = λ env token receiver metadata tokens. grind (arith, lookup-insert_self);
  keeps = λ previous receiver token approvals tokens. (refl, refl);
  gives_back = λ previous receiver token approvals tokens h.
      ground (arith, h, text_eq_refl receiver, lookup-insert_self token previous tokens);
}

abbrev pub Balances : Type 0
Balances = Map ℕ × ℕ

abbrev pub balances : Ft.FungibleToken
balances = record {
  Token = Balances;
  new = λ prefix. ([], 0);
  account = λ id t. lookup id t.0;
  total_supply = λ t. t.1;
  internal_register_account = λ id t.
      if is_some (lookup id t.0)
      then err err14_acc_already_registered
      else ok (insert id 0 t.0, t.1);
  internal_deposit = λ id amount t. do
    n ← expect (lookup id t.0) err10_acc_not_registered
    sum ← checked_add u128_mod n amount
    supply ← checked_add u128_mod t.1 amount
    ok (insert id sum t.0, supply);
  internal_withdraw = λ id amount t. do
    n ← expect (lookup id t.0) err10_acc_not_registered
    rest ← checked_sub n amount
    supply ← checked_sub t.1 amount
    ok (insert id rest t.0, supply);
}

pub balances-IsStandard : Ft.IsStandard balances
unfolding checked_add checked_sub lookup
balances-IsStandard = record {
  fresh = λ prefix id. refl;
  empty = λ prefix. refl;
  registers = λ id t. grind (arith, lookup-insert_self);
  registers_new = λ id t h. ground (arith, h);
  deposits = λ id amount t.
      Holds-bind _ (expect (lookup id t.0) err10_acc_not_registered) _ λ n known.
        Holds-bind _ (checked_add u128_mod n amount) _ λ sum e.
          Holds-bind _ (checked_add u128_mod t.1 amount) _ λ supply e'. (
            n,
            ground (arith, known),
            ground (arith, e, lookup-insert_self id sum t.0),
            ground (arith, e'),
          );
  deposits_fitting = λ id amount n t h fits supply. ground (arith, h, fits, supply);
  withdraws = λ id amount t.
      Holds-bind _ (expect (lookup id t.0) err10_acc_not_registered) _ λ n known.
        Holds-bind _ (checked_sub n amount) _ λ rest e.
          Holds-bind _ (checked_sub t.1 amount) _ λ supply e'. (
            rest,
            ground (arith, lookup-insert_self id rest t.0),
            ground (arith, e, known),
            ground (arith, e'),
          );
  withdraws_covered = λ id amount n t h enough supply. ground (arith, h, enough, supply);
}
