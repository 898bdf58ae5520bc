-- ===== src/Gate6/Demo.antt =====
-- What the two loops of `CTraderGate6AccountProof` find in an account list.
use trade_bot.Gate7.{Bytes}
use trade_bot.Base.{
  Bool, Bool-cases, List, Option, [], ap, arith, false, if-cases, if◌then◌else◌, inl, inr, length,
  none, refl, some, subst, suc, sym, true, ℕ, ◌++◌, ◌+◌, ◌<◌, ◌∙◌, ◌∷◌, ◌≡◌, ◌≢◌, ◌≤◌, ◌⊎◌,
}
use trade_bot.Gate6.{Gate6AccountRecord, Gate6Decision, VolatileCandidate}
use trade_bot.Gate6.Titles.{
  Entry, approved_entry, candidate, collect, contains_title, demo_entry, insert_candidate,
  match_accounts, refused, rejected, scanned, skipped, sort_candidates, title_lt,
}
use trade_bot.Gate7.Names.{bytes_eq}
use trade_bot.Gate7.Machine.Selection.{bytes_eq→eq, last_or}

-- A demo account of that title is in the list.
unfoldable pub HasDemo : Bytes → List Gate6AccountRecord → Type 0
HasDemo title [] = 0 < 0
HasDemo title (account ∷ accounts) =
    ((account.is_live ≡ some false) × (account.broker_title_short ≡ some title))
    ⊎ HasDemo title accounts

-- The identifiers of the demo accounts of that title.
unfoldable title_id : Bytes → ℕ → Option Bool → Option Bytes → Option ℕ
unfolding bytes_eq
title_id approved id (some false) (some title) = if bytes_eq title approved then some id else none
title_id approved id live title = none

abbrev prepend : Option ℕ → List ℕ → List ℕ
prepend none ids = ids
prepend (some id) ids = id ∷ ids

unfoldable pub title_ids : Bytes → List Gate6AccountRecord → List ℕ
unfolding title_id
title_ids title [] = []
title_ids title (account ∷ accounts) =
    prepend (title_id title account.account_id account.is_live account.broker_title_short)
      (title_ids title accounts)

-- Every candidate has the title of a demo account of the list.
unfoldable pub AllDemo : List Gate6AccountRecord → List VolatileCandidate → Type 0
unfolding HasDemo
AllDemo accounts [] = 0 ≤ 0
AllDemo accounts (c ∷ cs) = HasDemo c.broker_title_short accounts × AllDemo accounts cs

AllDemo-append :
    (accounts : List Gate6AccountRecord) (cs : List VolatileCandidate) (c : VolatileCandidate)
    → AllDemo accounts cs
    → HasDemo c.broker_title_short accounts
    → AllDemo accounts (cs ++ (c ∷ []))
unfolding AllDemo
AllDemo-append accounts [] c all h = (h, omega arith)
AllDemo-append accounts (d ∷ ds) c all h = (all.0, AllDemo-append accounts ds c (all.1) h)

AllDemo-insert_candidate :
    (accounts : List Gate6AccountRecord) (c : VolatileCandidate) (cs : List VolatileCandidate)
    → HasDemo c.broker_title_short accounts
    → AllDemo accounts cs
    → AllDemo accounts (insert_candidate c cs)
unfolding AllDemo insert_candidate
AllDemo-insert_candidate accounts c [] h all = (h, all)
AllDemo-insert_candidate accounts c (d ∷ ds) h all =
    if-cases (AllDemo accounts) (title_lt d.broker_title_short c.broker_title_short) _ _
      (λ lower. (all.0, AllDemo-insert_candidate accounts c ds h (all.1))) (λ higher. (h, all))

pub AllDemo-sort_candidates :
    (accounts : List Gate6AccountRecord) (cs : List VolatileCandidate)
    → AllDemo accounts cs
    → AllDemo accounts (sort_candidates cs)
unfolding AllDemo sort_candidates
AllDemo-sort_candidates accounts [] all = all
AllDemo-sort_candidates accounts (c ∷ cs) all =
    AllDemo-insert_candidate accounts c (sort_candidates cs) (all.0)
      (AllDemo-sort_candidates accounts cs (all.1))

pub HasDemo-contains_title :
    (accounts : List Gate6AccountRecord) (title : Bytes) (cs : List VolatileCandidate)
    → AllDemo accounts cs
    → contains_title title cs ≡ true
    → HasDemo title accounts
unfolding AllDemo contains_title
HasDemo-contains_title accounts title [] all h = cc
HasDemo-contains_title accounts title (c ∷ cs) all h =
    elim (Bool-cases (bytes_eq c.broker_title_short title)) [
      | inl same ↦
          subst (λ t. HasDemo t accounts) (bytes_eq→eq c.broker_title_short title same) (all.0)
      | inr other ↦ HasDemo-contains_title accounts title cs (all.1) (ground (arith, h, other))
    ]

demo_entry-demo :
    (id : ℕ) (live : Option Bool) (title : Option Bytes) (c : VolatileCandidate)
    → demo_entry id live title ≡ candidate c
    → (live ≡ some false) × (title ≡ some c.broker_title_short)
unfolding demo_entry
demo_entry-demo id (some false) (some title) c h = ground (arith, h)
demo_entry-demo id (some false) none c h = cc
demo_entry-demo id (some true) title c h = cc
demo_entry-demo id none title c h = cc

scanned_injective : {A : Type 0} (a b : A) → scanned a ≡ scanned b → a ≡ b
scanned_injective a b h = cc

refused_scan : {A : Type 0} (d : Gate6Decision) (a : A) → rejected d ≢ scanned a
refused_scan d a h = cc

Entry-cases :
    (e : Entry)
    → (e ≡ skipped)
      ⊎ (((d : Gate6Decision) × (e ≡ refused d)) ⊎ ((c : VolatileCandidate) × (e ≡ candidate c)))
Entry-cases skipped = inl refl
Entry-cases (refused d) = inr (inl (d, refl))
Entry-cases (candidate c) = inr (inr (c, refl))

-- The candidates that the loop collects are demo accounts of the list.
pub collect-AllDemo :
    (all accounts : List Gate6AccountRecord) (cs ds : List VolatileCandidate)
    → ((title : Bytes) → HasDemo title accounts → HasDemo title all)
    → AllDemo all cs
    → collect accounts cs ≡ scanned ds
    → AllDemo all ds
unfolding collect HasDemo
collect-AllDemo all [] cs ds within h e = subst (AllDemo all) (scanned_injective cs ds e) h
collect-AllDemo all (a ∷ accounts) cs ds within h e =
    elim (Entry-cases (demo_entry a.account_id a.is_live a.broker_title_short)) [
      | inl skip ↦
          collect-AllDemo all accounts cs ds (λ title found. within title (inr found)) h
            (rw (skip, collect) at e)
      | inr (inl (d, refuse)) ↦ absurd (refused_scan d ds (rw (refuse, collect) at e))
      | inr (inr (c, take)) ↦
          let demo = within c.broker_title_short (inl (demo_entry-demo a.account_id _ _ c take)) in
          collect-AllDemo all accounts (cs ++ (c ∷ [])) ds (λ title found. within title (inr found))
            (AllDemo-append all cs c h demo) (rw (take, collect) at e)
    ]

approved_entry-title_id :
    (t : Bytes) (id : ℕ) (live : Option Bool) (title : Option Bytes) (e : Entry)
    → approved_entry t id live title ≡ e
    → ((e ≡ skipped) × (title_id t id live title ≡ none))
      ⊎ (((d : Gate6Decision) × (e ≡ refused d))
          ⊎ ((c : VolatileCandidate) × (e ≡ candidate c)
              × (title_id t id live title ≡ some c.account_id)))
unfolding approved_entry title_id
approved_entry-title_id t id (some false) (some title) skipped h = inl (refl, ground (arith, h))
approved_entry-title_id t id (some false) (some title) (refused d) h = inr (inl (d, refl))
approved_entry-title_id t id (some false) (some title) (candidate c) h =
    inr (inr (c, refl, ground (arith, h)))
approved_entry-title_id t id (some false) none e h = inl (sym h, refl)
approved_entry-title_id t id (some true) title e h = inl (sym h, refl)
approved_entry-title_id t id none title e h = inl (sym h, refl)

-- The second loop finds the last of the identifiers and their number.
pub match_accounts-title_ids :
    (t : Bytes) (accounts : List Gate6AccountRecord) (m k m' k' : ℕ)
    → match_accounts t accounts m k ≡ scanned (m', k')
    → (m' ≡ last_or m (title_ids t accounts)) × (k' ≡ k + length (title_ids t accounts))
unfolding match_accounts title_ids
match_accounts-title_ids t [] m k m' k' h =
    let same : (m, k) ≡ (m', k') = scanned_injective (m, k) (m', k') h in
    (sym (ap (λ x. x.0) same), sym (ap (λ x. x.1) same) ∙ omega arith)
match_accounts-title_ids t (a ∷ accounts) m k m' k' h =
    elim (approved_entry-title_id t a.account_id a.is_live a.broker_title_short
      (approved_entry t a.account_id a.is_live a.broker_title_short) refl) [
        | inl (skip, none_there) ↦
            rw none_there
              (match_accounts-title_ids t accounts m k m' k' (rw (skip, match_accounts) at h))
        | inr (inl (d, refuse)) ↦
            absurd (refused_scan d (m', k') (rw (refuse, match_accounts) at h))
        | inr (inr (c, take, there)) ↦
            let rest =
              match_accounts-title_ids t accounts c.account_id (suc k) m' k'
                (rw (take, match_accounts) at h) in
            rw there (rest.0, omega (arith, rest.1))
      ]
