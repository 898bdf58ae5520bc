-- ===== src/TriggerOrders.antt =====
-- The data of include/TriggerOrderManager.hpp and the methods of src/TriggerOrderManager.cpp. The
-- vector of free indices is a list with its last element first.
pub mod Slots
pub mod Evaluation
pub mod Firing
pub mod Runs
pub mod Withdrawal
use trade_bot.Base.{
  Bool, List, Option, [], false, get_elem?, if◌then◌else◌, ltb, none, not, set, some, suc, true,
  zero, ℕ, ◌%◌, ◌&&◌, ◌+◌, ◌-◌, ◌==◌, ◌^◌, ◌||◌, ◌∷◌,
}
use trade_bot.Base.Text.{is_empty}
use trade_bot.Float.{FloatingPoint}
mod Tests
use Prim.Native.String.{String}

pub data TriggerOrderType : Type 0 where
  stop_loss oco : TriggerOrderType

pub data TriggerReason : Type 0 where
  no_reason stop_trigger take_profit : TriggerReason

-- The order identities wrap around at 64 bits.
abbrev pub next_id : ℕ → ℕ
next_id id = (id + 1) % 2 ^ 64

-- The constructor's loop: the last index is pushed first.
unfoldable pub free_indices : ℕ → List ℕ → List ℕ
free_indices zero free = free
free_indices (suc i) free = free_indices i (i ∷ free)

module _ (fp : FloatingPoint) where
  open fp use {Double, nought, le}

  pub record OrderSlot : Type 0 where
    pub in_use : Bool
    pub order_id : ℕ
    pub symbol : String
    pub order_type : TriggerOrderType
    pub is_buy : Bool
    pub stop_price : Double
    pub take_profit_price : Double
    pub quantity : Double
    pub placed_ts : ℕ
    pub strategy_id : String

  pub record TriggerFillEvent : Type 0 where
    pub order_id : ℕ
    pub symbol : String
    pub order_type : TriggerOrderType
    pub trigger_reason : TriggerReason
    pub is_buy : Bool
    pub trigger_price : Double
    pub execution_price : Double
    pub quantity : Double
    pub timestamp : ℕ
    pub strategy_id : String

  -- `L2OrderBook::BestQuote`.
  pub record BestQuote : Type 0 where
    pub valid : Bool
    pub bid_price : Double
    pub bid_size : Double
    pub ask_price : Double
    pub ask_size : Double

  pub record TriggerOrderManager : Type 0 where
    pub slots : List OrderSlot
    pub free_idx : List ℕ
    pub next_order_id : ℕ
    pub active_count : ℕ

  -- `OrderSlot{}`.
  abbrev pub empty_slot : OrderSlot
  empty_slot = record {
    in_use = false;
    order_id = 0;
    symbol = "";
    order_type = stop_loss;
    is_buy = false;
    stop_price = nought;
    take_profit_price = nought;
    quantity = nought;
    placed_ts = 0;
    strategy_id = "";
  }

  unfoldable pub empty_slots : ℕ → List OrderSlot
  empty_slots zero = []
  empty_slots (suc n) = empty_slot ∷ empty_slots n

  unfoldable pub new_manager : ℕ → TriggerOrderManager
  unfolding empty_slots free_indices
  new_manager capacity = record {
    slots = empty_slots capacity;
    free_idx = free_indices capacity [];
    next_order_id = 1;
    active_count = 0;
  }

  -- What a caller asks for.
  pub record Placement : Type 0 where
    pub symbol : String
    pub order_type : TriggerOrderType
    pub is_buy : Bool
    pub stop_price : Double
    pub take_profit_price : Double
    pub quantity : Double
    pub strategy_id : String

  abbrev pub is_oco : TriggerOrderType → Bool
  is_oco oco = true
  is_oco stop_loss = false

  -- The slot that an order takes; the time of placing stays as it was in the slot.
  abbrev pub taken_slot : Placement → ℕ → ℕ → OrderSlot
  taken_slot order id placed_ts = record {
    in_use = true;
    order_id = id;
    symbol = order.symbol;
    order_type = order.order_type;
    is_buy = order.is_buy;
    stop_price = order.stop_price;
    take_profit_price = order.take_profit_price;
    quantity = order.quantity;
    placed_ts = placed_ts;
    strategy_id = order.strategy_id;
  }

  abbrev pub placed_ts_of : Option OrderSlot → ℕ
  placed_ts_of none = 0
  placed_ts_of (some slot) = slot.placed_ts

  abbrev pub is_refused : Placement → Bool
  is_refused order =
      is_empty order.symbol
      || le order.stop_price nought
      || (is_oco order.order_type && le order.take_profit_price nought)

  -- With the free indices: none, or the one taken and the others.
  unfoldable pub take_slot : TriggerOrderManager → Placement → List ℕ → TriggerOrderManager × ℕ
  take_slot m order [] = (m, 0)
  take_slot m order (idx ∷ rest) = (
    record m {
      slots =
          set m.slots idx (taken_slot order m.next_order_id (placed_ts_of (get_elem? m.slots idx)));
      free_idx = rest;
      next_order_id = next_id m.next_order_id;
      active_count = next_id m.active_count;
    },
    m.next_order_id,
  )

  -- 0 stands for a refusal.
  unfoldable pub place_order : TriggerOrderManager → Placement → TriggerOrderManager × ℕ
  unfolding take_slot
  place_order m order = if is_refused order then (m, 0) else take_slot m order m.free_idx

  unfoldable pub place_stop_loss :
      TriggerOrderManager → String → Bool → Double → Double → String → TriggerOrderManager × ℕ
  unfolding place_order
  place_stop_loss m symbol is_buy stop_trigger_price quantity strategy_id = place_order m (record {
    symbol = symbol;
    order_type = stop_loss;
    is_buy = is_buy;
    stop_price = stop_trigger_price;
    take_profit_price = nought;
    quantity = quantity;
    strategy_id = strategy_id;
  })

  unfoldable pub place_oco :
      TriggerOrderManager
      → String
      → Bool
      → Double
      → Double
      → Double
      → String
      → TriggerOrderManager × ℕ
  unfolding place_order
  place_oco m symbol is_buy stop_trigger_price take_profit_price quantity strategy_id =
      place_order m (record {
        symbol = symbol;
        order_type = oco;
        is_buy = is_buy;
        stop_price = stop_trigger_price;
        take_profit_price = take_profit_price;
        quantity = quantity;
        strategy_id = strategy_id;
      })

  -- The loop of `cancel`: the first slot in use with that identity, counted from an index on.
  unfoldable pub find_order : ℕ → ℕ → List OrderSlot → Option ℕ
  find_order i id [] = none
  find_order i id (slot ∷ slots) =
      if slot.in_use && (slot.order_id == id) then some i else find_order (suc i) id slots

  unfoldable pub has_order : TriggerOrderManager → ℕ → Bool
  unfolding find_order
  has_order m id = elim (find_order 0 id m.slots) [ none ↦ false | some i ↦ true ]

  abbrev pub release_at : TriggerOrderManager → ℕ → Option OrderSlot → TriggerOrderManager
  release_at m idx none = m
  release_at m idx (some slot) = if not slot.in_use then m else record m {
    slots = set m.slots idx empty_slot;
    free_idx = idx ∷ m.free_idx;
    active_count = if ltb 0 m.active_count then m.active_count - 1 else m.active_count;
  }

  unfoldable pub release_slot : TriggerOrderManager → ℕ → TriggerOrderManager
  release_slot m idx = release_at m idx (get_elem? m.slots idx)

  unfoldable pub cancel : TriggerOrderManager → ℕ → TriggerOrderManager × Bool
  unfolding find_order release_slot
  cancel m id = elim (find_order 0 id m.slots) [
    | none ↦ (m, false)
    | some idx ↦ (release_slot m idx, true)
  ]
