-- ===== src/TriggerOrders/Runs.antt =====
-- Every sequence of calls keeps the account of the slots.
use native.Mathlib.Nat.{mod-eq_of_lt}
use trade_bot.Base.{
  Bool-cases, List, Option, Option-cases, [], arith, get_elem-set, get_elem?, if-cases, inl, inr,
  length, length-set, ltb, none, refl, set, some, subst, suc, true, ℕ, ◌+◌, ◌<◌, ◌^◌, ◌∷◌, ◌≡◌,
}
use trade_bot.Float.{FloatingPoint}
use trade_bot.TriggerOrders.{
  OrderSlot, Placement, TriggerOrderManager, cancel, empty_slot, find_order, is_refused,
  new_manager, next_id, place_order, placed_ts_of, release_at, release_slot, take_slot, taken_slot,
}
use trade_bot.TriggerOrders.Slots.{
  AllFree, AllFree-set, IsConsistent, NotIn-used, get_elem-lt, new_manager-IsConsistent, used,
  used-set,
}

module _ (fp : FloatingPoint) where
  pub next_id-lt : (n : ℕ) → n + 1 < 2 ^ 64 → next_id n ≡ n + 1
  next_id-lt n h = mod-eq_of_lt h

  take_slot-IsConsistent :
      (m : TriggerOrderManager fp) (order : Placement fp) (free : List ℕ)
      → IsConsistent fp m
      → m.free_idx ≡ free
      → IsConsistent fp (take_slot fp m order free).0
  unfolding take_slot AllFree
  take_slot-IsConsistent m order [] good e = good
  take_slot-IsConsistent m order (i ∷ is) good e =
      let all : AllFree fp m.slots (i ∷ is) = subst (AllFree fp m.slots) e good.all_free in
      let new : OrderSlot fp =
        taken_slot fp order m.next_order_id (placed_ts_of fp (get_elem? m.slots i)) in
      let more = used-set fp m.slots i (empty_slot fp) new (all.0) in
      let same = length-set m.slots i new in
      let divided : suc (length is) + used fp m.slots ≡ length m.slots =
        subst (λ js. length js + used fp m.slots ≡ length m.slots) e good.divided in
      let bump = next_id-lt m.active_count (omega (arith, divided, good.small, good.counted)) in
      record {
        all_free = AllFree-set fp m.slots i new is (all.1) (all.2);
        counted = omega (arith, bump, more, good.counted);
        divided = omega (arith, divided, more, same);
        small = omega (arith, same, good.small);
      }

  pub place_order-IsConsistent :
      (m : TriggerOrderManager fp) (order : Placement fp)
      → IsConsistent fp m
      → IsConsistent fp (place_order fp m order).0
  unfolding place_order
  place_order-IsConsistent m order good =
      if-cases (λ (r : TriggerOrderManager fp × ℕ). IsConsistent fp r.0) (is_refused fp order) _ _
        (λ refused. good) (λ taken. take_slot-IsConsistent m order m.free_idx good refl)

  release_at-IsConsistent :
      (m : TriggerOrderManager fp) (i : ℕ) (o : Option (OrderSlot fp))
      → IsConsistent fp m
      → get_elem? m.slots i ≡ o
      → IsConsistent fp (release_at fp m i o)
  unfolding AllFree
  release_at-IsConsistent m i none good e = good
  release_at-IsConsistent m i (some slot) good e = elim (Bool-cases slot.in_use) [
    | inr idle ↦ rw idle good
    | inl busy ↦
        let less = used-set fp m.slots i slot (empty_slot fp) e in
        let same = length-set m.slots i (empty_slot fp) in
        let within = get_elem-lt fp m.slots i slot e in
        let apart = NotIn-used fp m.slots i slot m.free_idx e busy good.all_free in
        let fewer : used fp (set m.slots i (empty_slot fp)) + 1 ≡ used fp m.slots =
          (let counted_now = rw busy at less in omega (arith, counted_now)) in
        let positive : ltb 0 m.active_count ≡ true = ground (arith, fewer, good.counted) in
        rw (busy, positive)
          (record {
            all_free = (
              get_elem-set m.slots i (empty_slot fp) within,
              apart,
              AllFree-set fp m.slots i (empty_slot fp) m.free_idx apart good.all_free,
            );
            counted = omega (arith, fewer, good.counted);
            divided = omega (arith, fewer, same, good.divided);
            small = omega (arith, same, good.small);
          })
  ]

  pub cancel-IsConsistent :
      (m : TriggerOrderManager fp) (id : ℕ) → IsConsistent fp m → IsConsistent fp (cancel fp m id).0
  unfolding cancel release_slot
  cancel-IsConsistent m id good = elim (Option-cases (find_order fp 0 id m.slots)) [
    | inl e ↦ rw (e, cancel) good
    | inr (i, e) ↦ rw (e, cancel) (release_at-IsConsistent m i (get_elem? m.slots i) good refl)
  ]

  pub data Call : Type 0 where
    places : Placement fp → Call
    cancels : ℕ → Call

  unfoldable pub perform : TriggerOrderManager fp → Call → TriggerOrderManager fp
  unfolding place_order cancel
  perform m (places order) = (place_order fp m order).0
  perform m (cancels id) = (cancel fp m id).0

  unfoldable pub run : TriggerOrderManager fp → List Call → TriggerOrderManager fp
  unfolding perform
  run m [] = m
  run m (call ∷ calls) = run (perform m call) calls

  run_from-IsConsistent :
      (m : TriggerOrderManager fp) (calls : List Call)
      → IsConsistent fp m
      → IsConsistent fp (run m calls)
  unfolding run perform
  run_from-IsConsistent m [] good = good
  run_from-IsConsistent m (places order ∷ calls) good =
      run_from-IsConsistent (place_order fp m order).0 calls (place_order-IsConsistent m order good)
  run_from-IsConsistent m (cancels id ∷ calls) good =
      run_from-IsConsistent (cancel fp m id).0 calls (cancel-IsConsistent m id good)

  -- For a capacity of 64 bits: after any sequence of orders placed and cancelled the number of active
  -- orders is the number of slots in use, the free indices are those of different empty slots, and
  -- the free indices and the slots in use are together as many as the slots.
  pub run-IsConsistent :
      (capacity : ℕ) (calls : List Call)
      → capacity < 2 ^ 64
      → IsConsistent fp (run (new_manager fp capacity) calls)
  run-IsConsistent capacity calls h =
      run_from-IsConsistent (new_manager fp capacity) calls (new_manager-IsConsistent fp capacity h)
