-- ===== src/Lifecycle/Progress.antt =====
-- Orders only go forward: no call loses an order, a fill or an entry of the audit history.
use native.Mathlib.Decide.{ℕ_discrete}
use mathlib.Core.Option.{some-injective}
use mathlib.Core.List.{append-nil}
use Prim.Native.String.{String}
use trade_bot.Base.{
  ℕ, ◌≤◌, ◌<◌, Bool, false, some, List, [], ◌∷◌, ◌++◌, ◌≡◌, inl, inr, refl, sym, ◌∙◌, arith,
}
use trade_bot.Base.Int.{◌≤ℤ◌}
use trade_bot.Lifecycle.{
  LifecycleAuditEntry, OrderLifecycleRecord, OrderLifecycleStore, find, lookup, event_is_older,
}
use trade_bot.Lifecycle.Events.{Call, apply, order_of, key_of}
use trade_bot.Lifecycle.Records.{lookup-replace_self}
use trade_bot.Lifecycle.Effects.{Changes}
use trade_bot.Lifecycle.Calls.{apply-Effect, reconciles}
use trade_bot.Lifecycle.Idempotency.{apply_atomic, other_stays}

pub record Forward (reconciling : Bool) (r s : OrderLifecycleRecord) : Type 0 where
  pub same_request : s.request ≡ r.request
  pub fills : reconciling ≡ false → r.filled_quantity.units ≤ℤ s.filled_quantity.units
  pub ordered : 0 < r.last_sequence → 0 < s.last_sequence → r.last_sequence ≤ s.last_sequence
  pub grown : (g : List LifecycleAuditEntry) × (s.audit_history ≡ r.audit_history ++ g)

unchanged : (b : Bool) (r : OrderLifecycleRecord) → Forward b r r
unchanged b r = record {
  same_request = refl;
  fills = λ _. omega arith;
  ordered = λ _ _. omega arith;
  grown = ([], sym (append-nil r.audit_history));
}

ordered_events :
    (r : OrderLifecycleRecord) (ts seq : ℕ)
    → event_is_older r ts seq ≡ false
    → 0 < r.last_sequence
    → 0 < seq
    → r.last_sequence ≤ seq
unfolding event_is_older
ordered_events r ts seq h p q = ground arith

Changes-Forward :
    (key : String) (b : Bool) (r s : OrderLifecycleRecord) → Changes key b r s → Forward b r s
Changes-Forward key b r s c =
    let (e, grown, _, _) = c.entry in
    record {
      same_request = c.same_request;
      fills = λ h. elim c.fills [ inl e ↦ cc | inr le ↦ le ];
      ordered = ordered_events r s.last_timestamp_ns s.last_sequence c.in_order;
      grown = (e ∷ [], grown);
    }

-- After any call every order is still there, with the same request, an audit history that extends
-- the old one, a filled quantity that is no smaller unless the call is a reconciliation, and a
-- sequence number that is no smaller if the old and the new one are both given (not 0).
pub apply-Forward :
    (call : Call) (store : OrderLifecycleStore) (id : ℕ) (r : OrderLifecycleRecord)
    → find store id ≡ some r
    → (s : OrderLifecycleRecord) × (find (apply call store).0 id ≡ some s)
      × Forward (reconciles call) r s
unfolding find
apply-Forward call store id r found = elim (apply-Effect call store) [
  | inl refused ↦ (r, rw (refused.0) found, unchanged (reconciles call) r)
  | inr a ↦ elim (ℕ_discrete (order_of call) id) [
    | yes same ↦
        let named : lookup (order_of call) store.records ≡ some r = rw same found in
        let ours : a.before ≡ r = some-injective a.before r (sym a.found ∙ named) in
        (
          a.after,
          rw (a.result, ← same) (lookup-replace_self (order_of call) a.after r store.records named),
          Changes-Forward (key_of call) (reconciles call) r a.after (rw ours at (a.allowed)),
        )
    | no other ↦ (
      r,
      other_stays call store id r other (apply_atomic call store) found,
      unchanged (reconciles call) r,
    )
  ]
]
