-- ===== src/Gate6/Titles.antt =====
-- The tests on accounts and the loops over account lists of src/CTraderGate6Proof.cpp.
use trade_bot.Base.{
  Bool, List, Option, [], false, if◌then◌else◌, leb, length, ltb, not, some, suc, true, ℕ, ◌&&◌,
  ◌++◌, ◌==◌, ◌||◌, ◌∷◌,
}
use trade_bot.Gate6.{
  Gate6AccountRecord, Gate6Decision, Gate6SafeCandidate, VolatileCandidate,
  invalid_account_identifier, unsafe_broker_metadata,
}
use trade_bot.Gate7.Names.{bytes_eq, printable}
use trade_bot.Gate7.{Bytes}

abbrev pub max_account_id : ℕ
max_account_id = 9223372036854775807

unfoldable pub is_usable_account_id : ℕ → Bool
is_usable_account_id account_id = ltb 0 account_id && leb account_id max_account_id

unfoldable pub is_safe_broker_title : Bytes → Bool
unfolding printable
is_safe_broker_title [] = false
is_safe_broker_title (c ∷ cs) = leb (length (c ∷ cs)) 128 && printable (c ∷ cs)

-- What the loop of `acceptGate6A` does with an account.
pub data Entry : Type 0 where
  skipped : Entry
  refused : Gate6Decision → Entry
  candidate : VolatileCandidate → Entry

unfoldable pub demo_entry : ℕ → Option Bool → Option Bytes → Entry
unfolding is_safe_broker_title is_usable_account_id
demo_entry account_id (some false) (some title) =
    if not (is_safe_broker_title title)
    then refused unsafe_broker_metadata
    else if not (is_usable_account_id account_id)
    then refused invalid_account_identifier
    else candidate (record { account_id = account_id; broker_title_short = title })
demo_entry account_id is_live title = skipped

pub data Scan (A : Type 0) : Type 0 where
  rejected : Gate6Decision → Scan A
  scanned : A → Scan A

unfoldable pub collect :
    List Gate6AccountRecord → List VolatileCandidate → Scan (List VolatileCandidate)
unfolding demo_entry
collect [] candidates = scanned candidates
collect (account ∷ accounts) candidates =
    elim (demo_entry account.account_id account.is_live account.broker_title_short) [
      | skipped ↦ collect accounts candidates
      | refused decision ↦ rejected decision
      | candidate c ↦ collect accounts (candidates ++ (c ∷ []))
    ]

-- `std::string`'s order, and the sort by it.
unfoldable pub title_lt : Bytes → Bytes → Bool
title_lt xs [] = false
title_lt [] (y ∷ ys) = true
title_lt (x ∷ xs) (y ∷ ys) = ltb x y || ((x == y) && title_lt xs ys)

unfoldable pub insert_candidate :
    VolatileCandidate → List VolatileCandidate → List VolatileCandidate
unfolding title_lt
insert_candidate c [] = c ∷ []
insert_candidate c (d ∷ ds) =
    if title_lt d.broker_title_short c.broker_title_short
    then d ∷ insert_candidate c ds
    else c ∷ d ∷ ds

unfoldable pub sort_candidates : List VolatileCandidate → List VolatileCandidate
unfolding insert_candidate
sort_candidates [] = []
sort_candidates (c ∷ cs) = insert_candidate c (sort_candidates cs)

-- The loop over neighbours.
unfoldable pub has_neighbours : Bytes → List VolatileCandidate → Bool
unfolding bytes_eq
has_neighbours title [] = false
has_neighbours title (d ∷ ds) =
    bytes_eq title d.broker_title_short || has_neighbours d.broker_title_short ds

unfoldable pub has_same_titles : List VolatileCandidate → Bool
unfolding has_neighbours
has_same_titles [] = false
has_same_titles (c ∷ cs) = has_neighbours c.broker_title_short cs

abbrev pub safe_candidate : VolatileCandidate → Gate6SafeCandidate
safe_candidate c = record { is_live = false; broker_title_short = c.broker_title_short }

unfoldable pub contains_title : Bytes → List VolatileCandidate → Bool
unfolding bytes_eq
contains_title title [] = false
contains_title title (c ∷ cs) = bytes_eq c.broker_title_short title || contains_title title cs

-- What the loop of `acceptGate6B` does with an account.
unfoldable pub approved_entry : Bytes → ℕ → Option Bool → Option Bytes → Entry
unfolding is_safe_broker_title bytes_eq is_usable_account_id
approved_entry approved account_id (some false) (some title) =
    if not (is_safe_broker_title title)
    then refused unsafe_broker_metadata
    else if not (bytes_eq title approved)
    then skipped
    else if not (is_usable_account_id account_id)
    then refused invalid_account_identifier
    else candidate (record { account_id = account_id; broker_title_short = title })
approved_entry approved account_id is_live title = skipped

-- The last match and the number of matches.
unfoldable pub match_accounts : Bytes → List Gate6AccountRecord → ℕ → ℕ → Scan (ℕ × ℕ)
unfolding approved_entry
match_accounts approved [] match matches = scanned (match, matches)
match_accounts approved (account ∷ accounts) match matches =
    elim (approved_entry approved account.account_id account.is_live account.broker_title_short) [
      | skipped ↦ match_accounts approved accounts match matches
      | refused decision ↦ rejected decision
      | candidate c ↦ match_accounts approved accounts c.account_id (suc matches)
    ]
