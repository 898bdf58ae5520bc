-- ===== src/Lib.antt =====
-- A model of the core of TradeBot, and proofs about it.
--
-- TradeBot turns market data into orders. Amounts are fixed-point numbers of 64 bits; every order is
-- followed by a lifecycle store, which takes the adapters' acknowledgements, executions, cancel
-- results and reconciliations in whatever order they arrive; before a broker connection may be used
-- at all, a proof object walks through the broker's account, symbol and subscription messages to one
-- quote. The parts meet in the broker-neutral types of include/BrokerAdapterContracts.hpp.
--
--   Base       numbers, integers, lists and texts that the parts share.
--   Broker     include/BrokerAdapterContracts.hpp: the types of requests, events and decimals.
--   Financial  src/FinancialMath.cpp and include/FinancialMath.hpp. Wide is `multiplyWide` and
--              `divideWide`, Units the checked operations on `std::int64_t`, Values the operations on
--              prices, quantities and money (`notional`, `fee`, `applySlippage` and so on).
--   Lifecycle  src/OrderLifecycleStore.cpp. Methods and Events have one function for each method of
--              `OrderLifecycleStore`; a method takes the store and returns the new store and its
--              result. `Call` is a call of any event method and `apply` runs it.
--   Gate7      src/CTraderGate7Proof.cpp. Names is `isCanonicalXauusd` and `isSafeText`, Price is
--              `normalizeSignedScale5` and `normalizeSpotPrice`, Timestamp is
--              `classifyTimestampDetailed`, and Machine has one function for each method of
--              `CTraderGate7Proof`; `Call` and `apply` as above.
--   OAuth      src/CTraderOAuthCorrelation.cpp, the one-shot guard of the OAuth callback. Query is
--              `parseQuery`, Guard has the methods of `CTraderOAuthCorrelationGuard`, with the entropy
--              of the operating system as an argument.
--   Gate6      src/CTraderGate6Proof.cpp. Titles has the loops over account lists, Steps one function
--              for each method of `CTraderGate6AccountProof`, Diagnostics `safeDiagnostic` and the
--              allow-lists; `Call`, `apply` and `run` as above.
--   Float      `double` and `long double`, as a parameter of whatever uses them.
--   Portfolio  src/PortfolioManager.cpp. Marking is `valueState`, Trades `openLong`, Increases
--              `addToLong`, Closing `closePosition` and `updatePnL`, Orders the queue of pending
--              orders; a method returns the new portfolio or the type of the exception. `Call` is a
--              call of any of them and `run` a sequence of calls.
--   TriggerOrders  src/TriggerOrderManager.cpp: its methods, with `evaluate` in Evaluation.
--   RingBuffer include/LockFreeRingBuffer.hpp: `push` and `pop` as their accesses to what the two
--              threads share, in any order, and `size`.
--
-- A `std::int64_t` is an integer, with its range as `IsInt64` where a statement needs it; an unsigned
-- number is a number, and where the source wraps around, the model has the remainder by 2 ^ w. The
-- two hash containers of the lifecycle store are an association list by order identity and a list of
-- keys. The event methods of the lifecycle store share their first lines and their last, and so share
-- the function `on_event`, which takes a method's own guards and change. In the lifecycle store a text
-- is opaque but for equality; in the quote proof and the guard it is the list of its bytes. Loops are
-- structural recursion: the 128 rounds of the long division count down a number, the other loops run
-- over their lists, and the powers of ten count the digits; no loop has fuel that could run out.
--
-- What the program does in `double` is a parameter: the model states which operations are called, on
-- which arguments and in which order, and a theorem names the one law that it needs, that a cast to
-- `std::int64_t` of a value in range stays in range. In the ring buffer an acquire load of the index that
-- the other thread stores gives the value that the same thread loaded last or any one stored since,
-- which is what the order of the stores to one atomic allows; a number in the step says which. A
-- thread loads its own index as it stored it. A cell is written before the release store of the index
-- that makes it readable, and read before the one that frees it.
--
-- Not modelled: the strategies and the analytics; sockets, threads, files and the Objective-C++
-- runtimes; the overwriting of memory that is about to be freed. An allocation that fails in one
-- of the two proofs is the call `interrupted` or `interrupts`. The snapshots of the portfolio, the order book and the
-- execution engine are not modelled either.
pub mod Base
pub mod Float
pub mod Financial
pub mod Broker
pub mod Lifecycle
pub mod Gate7
pub mod OAuth
pub mod Gate6
pub mod Portfolio
pub mod TriggerOrders
pub mod RingBuffer
