-- ===== src/Lifecycle/History.antt =====
-- Any sequence of orders and events, from the empty store.
use trade_bot.Base.{
  ℕ, ◌≤◌, Bool, true, false, Option, none, some, List, [], ◌∷◌, ◌≡◌, ◌⊎◌, inl, inr, refl, arith,
  ◌==◌, ◌||◌, Bool-cases, not, ltb,
}
use trade_bot.Base.Int.{ℤ, pos, ◌+ℤ◌, ◌≤ℤ◌, IsInt64, eqb_ℤ, int64_max, -ℤ_parts, eq_of_parts}
use trade_bot.Base.Text.{contains, insert, is_empty}
use trade_bot.Broker.{Decimal64, OrderRequest, created, risk_checked, submitted, max_scale}
use trade_bot.Lifecycle.{
  OrderLifecycleRecord, OrderLifecycleStore, empty_store, find, valid_quantities,
  is_cancel_requested,
}
use trade_bot.Lifecycle.Methods.{create, new_record, is_some, is_positive}
use trade_bot.Lifecycle.Events.{Call, apply}
use trade_bot.Lifecycle.Trail.{phase, opened, Visits, Trail-Visits}
use trade_bot.Lifecycle.Invariant.{IsSound, AllSound, AllSound-lookup, apply-AllSound}

-- An order is placed, or an event method is called.
pub data Step : Type 0 where
  place : OrderRequest → Step
  call : Call → Step

unfoldable pub history : List Step → OrderLifecycleStore → OrderLifecycleStore
history [] store = store
history (place request ∷ steps) store = history steps (create store request).0
history (call c ∷ steps) store = history steps (apply c store).0

-- The quantities of the placed orders are 64-bit numbers, as their type says.
abbrev pub Fits : List Step → Type 0
Fits [] = Unit
Fits (place request ∷ steps) = IsInt64 request.quantity.units × Fits steps
Fits (call c ∷ steps) = Fits steps

new_record-IsSound :
    (request : OrderRequest)
    → IsInt64 request.quantity.units
    → is_positive request.quantity ≡ true
    → IsSound request.local_order_id (new_record request)
unfolding new_record is_positive is_cancel_requested valid_quantities ◌+ℤ◌
new_record-IsSound request fits p = record {
  named = refl;
  positive = ground arith;
  splits = ground (arith, -ℤ_parts int64_max request.quantity.units);
  guarded = λ c. cc;
  trail = opened _ _ created refl refl refl;
}

-- The store after a successful `create`.
abbrev created_store : OrderLifecycleStore → OrderRequest → OrderLifecycleStore
created_store store request = record {
  records = (request.local_order_id, new_record request) ∷ store.records;
  applied_event_keys = insert request.idempotency_key store.applied_event_keys;
}

create_cases :
    (store : OrderLifecycleStore) (request : OrderRequest)
    → ((create store request).0 ≡ store)
      ⊎ ((is_positive request.quantity ≡ true)
          × (find store request.local_order_id ≡ none)
          × ((create store request).0 ≡ created_store store request))
unfolding create
create_cases store request = elim (Bool-cases first) [
  | inl bad ↦ inl (rw bad)
  | inr good ↦ elim (Bool-cases second) [
    | inl taken ↦ inl (rw (good, taken))
    | inr free ↦
        inr
          (ground arith, absent (find store request.local_order_id) (ground arith), rw (good, free))
  ]
]
  where
    first : Bool
    first =
        (request.local_order_id == 0)
        || is_empty request.canonical_symbol
        || not (is_positive request.quantity)
        || is_empty request.idempotency_key
        || ltb max_scale request.quantity.scale

    second : Bool
    second =
        is_some (find store request.local_order_id)
        || contains request.idempotency_key store.applied_event_keys

    absent : (o : Option OrderLifecycleRecord) → is_some o ≡ false → o ≡ none
    absent none e = refl
    absent (some r) e = cc

create-AllSound :
    (store : OrderLifecycleStore) (request : OrderRequest)
    → IsInt64 request.quantity.units
    → AllSound store.records
    → AllSound (create store request).0.records
create-AllSound store request fits h = elim (create_cases store request) [
  | inl same ↦ rw same h
  | inr (positive, absent, made) ↦
      rw made (new_record-IsSound request fits positive, unfold find in absent, h)
]

history-AllSound :
    (steps : List Step) (store : OrderLifecycleStore)
    → Fits steps
    → AllSound store.records
    → AllSound (history steps store).records
unfolding history
history-AllSound [] store fits h = h
history-AllSound (place request ∷ steps) store (fit, fits) h =
    history-AllSound steps (create store request).0 fits (create-AllSound store request fit h)
history-AllSound (call c ∷ steps) store fits h =
    history-AllSound steps (apply c store).0 fits (apply-AllSound c store h)

split_quantities :
    (r : OrderLifecycleRecord) (a b : Decimal64)
    → valid_quantities r a b ≡ true
    → (pos 0 ≤ℤ a.units) × (pos 0 ≤ℤ b.units) × (a.units +ℤ b.units ≡ r.request.quantity.units)
unfolding valid_quantities
split_quantities r a b h = (
  ground arith,
  ground arith,
  eqb_eq (a.units +ℤ b.units) r.request.quantity.units (ground arith),
)
  where
    eqb_eq : (x y : ℤ) → eqb_ℤ x y ≡ true → x ≡ y
    eqb_eq x y e = eq_of_parts x y (ground arith)

-- What every order looks like, whatever was placed and called before.
pub record IsAccounted (id : ℕ) (r : OrderLifecycleRecord) : Type 0 where
  pub named : r.request.local_order_id ≡ id
  pub filled_nonneg : pos 0 ≤ℤ r.filled_quantity.units
  pub remaining_nonneg : pos 0 ≤ℤ r.remaining_quantity.units
  pub whole : r.filled_quantity.units +ℤ r.remaining_quantity.units ≡ r.request.quantity.units
  pub checked : 1 ≤ phase r.state → Visits risk_checked r.audit_history
  pub sent : 2 ≤ phase r.state → Visits submitted r.audit_history

-- Whatever orders of 64-bit quantities are placed and whatever calls are made, from the empty store:
-- each order that is found carries the identity under which it is found, its filled and remaining
-- quantities are not negative and add up to the quantity requested, and if it has left the state
-- `Created` its audit history has an entry for the risk check, and if it has come to `Submitted` or
-- beyond also one for the submission.
pub history-IsAccounted :
    (steps : List Step) (id : ℕ) (r : OrderLifecycleRecord)
    → Fits steps
    → find (history steps empty_store) id ≡ some r
    → IsAccounted id r
unfolding find
history-IsAccounted steps id r fits found =
    let sound =
      AllSound-lookup (history steps empty_store).records id r
        (history-AllSound steps empty_store fits tt) found in
    let (a, b, sum) = split_quantities r r.filled_quantity r.remaining_quantity sound.splits in
    let (first, second) = Trail-Visits r.audit_history r.state sound.trail in
    record {
      named = sound.named;
      filled_nonneg = a;
      remaining_nonneg = b;
      whole = sum;
      checked = first;
      sent = second;
    }
