-- ===== src/Lifecycle/Invariant.antt =====
-- What holds of every order of every store that the methods can build.
use mathlib.Core.Option.{some-injective}
use Prim.Native.String.{String}
use trade_bot.Base.{
  ℕ, Bool, true, none, some, List, [], ◌∷◌, ◌≡◌, ◌⊎◌, inl, inr, refl, ap, subst, ◌∙◌, arith, ◌==◌,
  Bool-cases,
}
use trade_bot.Base.Int.{pos, ◌<ℤ◌}
use trade_bot.Broker.{Decimal64, OrderRequest}
use trade_bot.Lifecycle.{
  OrderLifecycleRecord, OrderLifecycleStore, find, lookup, replace, valid_quantities,
  is_cancel_requested, cancelable,
}
use trade_bot.Lifecycle.Events.{Call, apply, order_of, key_of}
use trade_bot.Lifecycle.Effects.{Changes}
use trade_bot.Lifecycle.Calls.{apply-Effect, reconciles}
use trade_bot.Lifecycle.Trail.{Trail, moved, Follows, can_transition-Follows, answer-Follows}

pub record IsSound (id : ℕ) (r : OrderLifecycleRecord) : Type 0 where
  pub named : r.request.local_order_id ≡ id
  pub positive : pos 0 <ℤ r.request.quantity.units
  pub splits : valid_quantities r r.filled_quantity r.remaining_quantity ≡ true
  pub guarded : is_cancel_requested r.state ≡ true → cancelable r.pre_cancel_state ≡ true
  pub trail : Trail r.audit_history r.state

-- Every order is sound, and has one entry.
abbrev pub AllSound : List (ℕ × OrderLifecycleRecord) → Type 0
AllSound [] = Unit
AllSound ((id, r) ∷ m) = IsSound id r × (lookup id m ≡ none) × AllSound m

pub AllSound-lookup :
    (m : List (ℕ × OrderLifecycleRecord)) (id : ℕ) (r : OrderLifecycleRecord)
    → AllSound m
    → lookup id m ≡ some r
    → IsSound id r
unfolding lookup
AllSound-lookup [] id r h e = cc
AllSound-lookup ((k, s) ∷ m) id r (sound, _, rest) e = elim (Bool-cases (k == id)) [
  | inl hit ↦
      let same : k ≡ id = ground arith in
      let ours : s ≡ r = some-injective s r (rw hit at e) in
      subst (λ j. IsSound j r) same (subst (λ t. IsSound k t) ours sound)
  | inr miss ↦ AllSound-lookup m id r rest (rw miss at e)
]

lookup-replace-none :
    (k id : ℕ) (r : OrderLifecycleRecord) (m : List (ℕ × OrderLifecycleRecord))
    → lookup k m ≡ none
    → lookup k (replace id r m) ≡ none
unfolding lookup replace
lookup-replace-none k id r [] h = refl
lookup-replace-none k id r (e ∷ m) h = ground (arith, lookup-replace-none k id r m)

AllSound-replace :
    (m : List (ℕ × OrderLifecycleRecord)) (id : ℕ) (r : OrderLifecycleRecord)
    → AllSound m
    → IsSound id r
    → AllSound (replace id r m)
unfolding replace
AllSound-replace [] id r h sound = tt
AllSound-replace ((k, s) ∷ m) id r (old, apart, rest) sound = elim (Bool-cases (k == id)) [
  | inl hit ↦
      let same : id ≡ k = ground arith in rw hit (subst (λ j. IsSound j r) same sound, apart, rest)
  | inr miss ↦ rw miss (old, lookup-replace-none k id r m apart, AllSound-replace m id r rest sound)
]

valid_quantities-request :
    (r s : OrderLifecycleRecord) (a b : Decimal64)
    → s.request ≡ r.request
    → valid_quantities s a b ≡ valid_quantities r a b
unfolding valid_quantities
valid_quantities-request r s a b e = rw e

Changes-IsSound :
    (key : String) (b : Bool) (id : ℕ) (r s : OrderLifecycleRecord)
    → Changes key b r s
    → IsSound id r
    → IsSound id s
Changes-IsSound key b id r s c v =
    let (e, grown, entry, _) = c.entry in
    record {
      named = ap (λ (q : OrderRequest). q.local_order_id) c.same_request ∙ v.named;
      positive = rw (c.same_request) v.positive;
      splits =
          valid_quantities-request r s s.filled_quantity s.remaining_quantity c.same_request
          ∙ quantities c.quantities;
      guarded = guard;
      trail = moved e r.audit_history s.audit_history r.state s.state v.trail follows entry grown;
    }
  where
    quantities :
        ((s.filled_quantity ≡ r.filled_quantity) × (s.remaining_quantity ≡ r.remaining_quantity))
          ⊎ (valid_quantities r s.filled_quantity s.remaining_quantity ≡ true)
        → valid_quantities r s.filled_quantity s.remaining_quantity ≡ true
    quantities (inl (f, m)) = rw (f, m) v.splits
    quantities (inr valid) = valid

    guard : is_cancel_requested s.state ≡ true → cancelable s.pre_cancel_state ≡ true
    guard asked = elim (c.cancels asked) [
      | inl (same, open_state) ↦ rw same open_state
      | inr (same, pending) ↦ rw same (v.guarded pending)
    ]

    follows : Follows r.state s.state
    follows = elim (c.moves) [
      | inl step ↦ can_transition-Follows r.state s.state step
      | inr (asked, answer) ↦ answer-Follows r s.state asked (v.guarded asked) answer
    ]

pub apply-AllSound :
    (call : Call) (store : OrderLifecycleStore)
    → AllSound store.records
    → AllSound (apply call store).0.records
apply-AllSound call store h = elim (apply-Effect call store) [
  | inl refused ↦ rw (refused.0) h
  | inr a ↦
      let before =
        AllSound-lookup store.records (order_of call) a.before h (unfold find in a.found) in
      rw (a.result) (
        AllSound-replace store.records (order_of call) a.after h (
          Changes-IsSound (key_of call) (reconciles call) (order_of call) a.before a.after a.allowed
            before))
]
