-- ===== src/Lifecycle/Records.antt =====
-- The laws of the map of records and of the set of applied keys.
use Prim.Native.String.{String}
use trade_bot.Base.{
  ℕ, true, false, some, List, [], ◌∷◌, ◌||◌, ◌≡◌, ◌≢◌, refl, arith, Bool-cases, inl, inr,
}
use trade_bot.Base.Text.{str_eq, str_eq_iff, is_empty, contains, insert}
use trade_bot.Lifecycle.{OrderLifecycleRecord, lookup, replace, record_event_key}

pub lookup-replace_self :
    (id : ℕ) (r old : OrderLifecycleRecord) (m : List (ℕ × OrderLifecycleRecord))
    → lookup id m ≡ some old
    → lookup id (replace id r m) ≡ some r
unfolding lookup replace
lookup-replace_self id r old [] h = cc
lookup-replace_self id r old (e ∷ m) h = ground (arith, lookup-replace_self id r old m)

pub lookup-replace_ne :
    (id j : ℕ) (r : OrderLifecycleRecord) (m : List (ℕ × OrderLifecycleRecord))
    → id ≢ j
    → lookup j (replace id r m) ≡ lookup j m
unfolding lookup replace
lookup-replace_ne id j r [] h = refl
lookup-replace_ne id j r (e ∷ m) h = ground (arith, lookup-replace_ne id j r m h)

pub replace-replace :
    (id : ℕ) (r s : OrderLifecycleRecord) (m : List (ℕ × OrderLifecycleRecord))
    → replace id r (replace id s m) ≡ replace id r m
unfolding replace
replace-replace id r s [] = refl
replace-replace id r s (e ∷ m) = ground (arith, replace-replace id r s m)

pub contains-insert :
    (k j : String) (keys : List String)
    → contains j (insert k keys) ≡ (str_eq k j || contains j keys)
unfolding contains insert
contains-insert k j keys = elim (Bool-cases (contains k keys)) [
  | inl old ↦ ground (arith, contains_eq k j keys, str_eq_iff k j)
  | inr new ↦ rw new
]
  where
    contains_eq :
        (k j : String) (keys : List String)
        → contains k keys ≡ true
        → k ≡ j
        → contains j keys ≡ true
    contains_eq k j keys h e = rw (← e) h

pub record_event_key-new :
    (k : String) (keys : List String)
    → is_empty k ≡ false
    → contains k keys ≡ false
    → record_event_key k keys ≡ k ∷ keys
unfolding record_event_key insert
record_event_key-new k keys h fresh = rw (h, fresh)

pub contains-cons_self : (k : String) (keys : List String) → contains k (k ∷ keys) ≡ true
unfolding contains
contains-cons_self k keys = ground (arith, str_eq_iff k k)

pub contains-cons :
    (k j : String) (keys : List String) → contains j keys ≡ true → contains j (k ∷ keys) ≡ true
unfolding contains
contains-cons k j keys h = ground arith
