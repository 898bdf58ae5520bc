-- ===== src/Gate7/Machine/Selection.antt =====
-- Which account list lets the quote proof go on.
use trade_bot.Base.{
  sym, ◌∙◌, inl, inr, Option-cases, refl, ap₂, ==_iff, suc, Bool, List, Option, [], ap, arith,
  false, if◌then◌else◌, leb, length, ltb, none, some, true, ℕ, ◌&&◌, ◌+◌, ◌∷◌, ◌≡◌,
}
use trade_bot.Gate7.{
  AccountListEvidence, QuoteProof, account_list, account_authentication_ready, AccountRecord, Bytes,
}
use trade_bot.Gate7.Names.{bytes_eq, fibo, is_safe_text, printable}
use trade_bot.Gate7.Price.{max_int64}
use trade_bot.Gate7.Machine.{finish, is_terminal, validate_transport_evidence, is_usable_account_id}
use trade_bot.Base.Int.{pos}
use trade_bot.Gate7.Machine.Accounts.{
  accept_account_list, settle_account, eligible_account, fibo_demo, match_accounts,
}

-- The identifier of a demo account whose broker title is FIBO.
unfoldable demo_id : Option ℕ → Option Bool → Option Bytes → Option ℕ
unfolding bytes_eq
demo_id (some id) (some false) (some title) =
    if ltb 0 id && leb id max_int64 && bytes_eq title fibo then some id else none
demo_id id is_live title = none

unfoldable pub demo_ids : List AccountRecord → List ℕ
unfolding demo_id
demo_ids [] = []
demo_ids (a ∷ rest) =
    let later = demo_ids rest in
    elim (demo_id a.account_id a.is_live a.broker_title_short) [
      | none ↦ later
      | some id ↦ id ∷ later
    ]

abbrev pub last_or : ℕ → List ℕ → ℕ
last_or m [] = m
last_or m (x ∷ xs) = last_or x xs

pub bytes_eq→eq : (xs ys : Bytes) → bytes_eq xs ys ≡ true → xs ≡ ys
unfolding bytes_eq
bytes_eq→eq [] [] h = refl
bytes_eq→eq [] (b ∷ ys) h = ground arith
bytes_eq→eq (a ∷ xs) [] h = ground arith
bytes_eq→eq (a ∷ xs) (b ∷ ys) h =
    ap₂ ◌∷◌ ((==_iff a b).0 (ground arith)) (bytes_eq→eq xs ys (ground arith))

fibo_is_safe : (title : Bytes) → bytes_eq title fibo ≡ true → is_safe_text title ≡ true
unfolding bytes_eq is_safe_text printable
fibo_is_safe title h = rw (bytes_eq→eq title fibo h) refl

fibo_demo-demo_id :
    (id : Option ℕ) (live : Option Bool) (title : Option Bytes)
    → fibo_demo id live title ≡ demo_id id live title
unfolding fibo_demo demo_id is_usable_account_id
fibo_demo-demo_id (some id) (some false) (some title) = ground (arith, fibo_is_safe title)
fibo_demo-demo_id id live title = ground arith

match_accounts-demo_ids :
    (accounts : List AccountRecord) (m k : ℕ)
    → match_accounts accounts m k ≡ (last_or m (demo_ids accounts), k + length (demo_ids accounts))
unfolding match_accounts eligible_account demo_ids
match_accounts-demo_ids [] m k = ap (λ n. (m, n)) (omega arith)
match_accounts-demo_ids (a ∷ rest) m k =
    elim (Option-cases (demo_id a.account_id a.is_live a.broker_title_short)) [
      | inl e ↦
          rw
            (
              match_accounts,
              demo_ids,
              fibo_demo-demo_id a.account_id a.is_live a.broker_title_short,
              e,
            )
            (match_accounts-demo_ids rest m k)
      | inr (id, e) ↦
          rw
            (
              match_accounts,
              demo_ids,
              fibo_demo-demo_id a.account_id a.is_live a.broker_title_short,
              e,
            )
            (match_accounts-demo_ids rest id (suc k)
              ∙ ap (λ n. (last_or id (demo_ids rest), n)) (omega arith))
    ]

-- What an account list must bring: the transport's evidence, the token's ownership, the trading
-- scope, and one demo account of the broker.
pub record Selects (p : QuoteProof) (e : AccountListEvidence) (id : ℕ) : Type 0 where
  pub here : p.phase ≡ account_list
  pub generation : e.connection_generation ≡ p.connection_generation
  pub current : e.current_connection_generation ≡ true
  pub correlated : e.correlation_matched ≡ true
  pub owned : e.token_owned ≡ true
  pub scoped : e.trading_scope ≡ true
  pub one : demo_ids e.accounts ≡ id ∷ []

settled :
    (p : QuoteProof) (m : ℕ) (ids : List ℕ)
    → (settle_account p (last_or m ids, 0 + length ids)).1 ≡ account_authentication_ready
    → (id : ℕ) × (ids ≡ id ∷ [])
      × ((settle_account p (last_or m ids, 0 + length ids)).0.account_id ≡ pos id)
unfolding settle_account finish
settled p m [] h = ground arith
settled p m (id ∷ []) h = (id, refl, refl)
settled p m (id ∷ other ∷ rest) h = ground arith

-- The guards before the list is searched.
guards :
    (p : QuoteProof) (e : AccountListEvidence)
    → (accept_account_list p e).1 ≡ account_authentication_ready
    → (accept_account_list p e ≡ settle_account p (match_accounts e.accounts 0 0))
      × (p.phase ≡ account_list)
      × (e.connection_generation ≡ p.connection_generation)
      × (e.current_connection_generation ≡ true)
      × (e.correlation_matched ≡ true)
      × (e.token_owned ≡ true)
      × (e.trading_scope ≡ true)
unfolding accept_account_list is_terminal finish validate_transport_evidence
guards p e h = (
  ground arith,
  ground arith,
  ground arith,
  ground arith,
  ground arith,
  ground arith,
  ground arith,
)

-- The account list is accepted only with all of its evidence and with a single demo account of the
-- broker, which is then the account of the proof.
pub accept_account_list-Selects :
    (p : QuoteProof) (e : AccountListEvidence)
    → (accept_account_list p e).1 ≡ account_authentication_ready
    → (id : ℕ) × Selects p e id × ((accept_account_list p e).0.account_id ≡ pos id)
accept_account_list-Selects p e h =
    let (same, here, generation, current, correlated, owned, scoped) = guards p e h in
    let counted = same ∙ ap (settle_account p) (match_accounts-demo_ids e.accounts 0 0) in
    let (id, one, chosen) = settled p 0 (demo_ids e.accounts) (sym (ap (λ o. o.1) counted) ∙ h) in
    (
      id,
      record {
        here = here;
        generation = generation;
        current = current;
        correlated = correlated;
        owned = owned;
        scoped = scoped;
        one = one;
      },
      ap (λ o. o.0.account_id) counted ∙ chosen,
    )
