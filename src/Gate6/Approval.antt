-- ===== src/Gate6/Approval.antt =====
-- What a completed account proof has behind it.
use trade_bot.Gate7.{Bytes}
use trade_bot.Base.{List, [], inr, refl, ℕ, ◌<◌, ◌∷◌, ◌≡◌, ◌≤◌, ◌⊎◌}
use trade_bot.Base.Int.{pos}
use trade_bot.Gate6.{
  AccountProof, Gate6AccountListEvidence, Gate6Decision, Gate6SafeCandidate, Phase,
  VolatileCandidate, account_auth_ready, awaiting_wade, complete, gate6_a_ready, gate6_b_ready,
  terminal,
}
use trade_bot.Gate6.Steps.{finish}
use trade_bot.Gate6.Calls.{Call, authenticate, confirm, gate6_a, gate6_b}
use trade_bot.Gate6.Demo.{AllDemo, HasDemo, title_ids}

-- A call is among those made.
unfoldable pub Made : Call → List Call → Type 0
Made call [] = 0 < 0
Made call (c ∷ calls) = (c ≡ call) ⊎ Made call calls

-- A title was confirmed, and a demo account of that title was in an account list.
abbrev pub Confirmed : List Call → Bytes → Type 0
Confirmed calls title =
    (evidence : Gate6AccountListEvidence) × Made (gate6_a evidence) calls
    × HasDemo title evidence.accounts
    × Made (confirm title) calls

-- A title was confirmed, and a later account list had one demo account of that title, of that
-- identifier.
abbrev pub Selected : List Call → Bytes → ℕ → Type 0
Selected calls title id =
    Confirmed calls title
    × ((evidence : Gate6AccountListEvidence) × Made (gate6_b evidence) calls
        × (title_ids title evidence.accounts ≡ id ∷ []))

-- All of that, and the broker answered the authentication with that identifier.
abbrev pub Approved : List Call → Type 0
Approved calls =
    (title : Bytes) × (id : ℕ) × Selected calls title id
    × Made (authenticate (pos id)) calls
    × (0 < id)

-- Nothing is left of the accounts, neither in the titles to be shown nor in what the proof keeps.
abbrev pub Erased : List Gate6SafeCandidate → List VolatileCandidate → Bytes → ℕ → Type 0
Erased titles candidates title id = (titles ≡ []) × (candidates ≡ []) × (title ≡ []) × (id ≡ 0)

-- What each phase has behind it.
unfoldable pub Backed :
    List Call → Phase → List Gate6SafeCandidate → List VolatileCandidate → Bytes → ℕ → Type 0
unfolding Made HasDemo AllDemo title_ids
Backed calls gate6_a_ready titles candidates title id = 0 ≤ 0
Backed calls awaiting_wade titles candidates title id =
    (evidence : Gate6AccountListEvidence) × Made (gate6_a evidence) calls
    × AllDemo evidence.accounts candidates
Backed calls gate6_b_ready titles candidates title id = Confirmed calls title
Backed calls account_auth_ready titles candidates title id = Selected calls title id
Backed calls complete titles candidates title id =
    Approved calls × Erased titles candidates title id
Backed calls terminal titles candidates title id = Erased titles candidates title id

abbrev pub IsBacked : List Call → AccountProof → Type 0
IsBacked calls p =
    Backed calls p.phase p.safe_candidates p.volatile_candidates p.approved_broker_title
      p.selected_account_id

-- A further call leaves what is behind a phase.
pub Backed-cons :
    (call : Call) (calls : List Call) (phase : Phase) (ts : List Gate6SafeCandidate)
    (cs : List VolatileCandidate) (title : Bytes) (id : ℕ)
    → Backed calls phase ts cs title id
    → Backed (call ∷ calls) phase ts cs title id
unfolding Backed Made
Backed-cons call calls gate6_a_ready ts cs title id h = h
Backed-cons call calls awaiting_wade ts cs title id (evidence, made, all) =
    (evidence, inr made, all)
Backed-cons call calls gate6_b_ready ts cs title id (evidence, made, demo, confirmed) =
    (evidence, inr made, demo, inr confirmed)
Backed-cons call calls account_auth_ready ts cs title id
      ((evidence, made, demo, confirmed), (later, made', ids)) =
    ((evidence, inr made, demo, inr confirmed), (later, inr made', ids))
Backed-cons call calls complete ts cs title id
      (
        (t, i, ((evidence, made, demo, confirmed), (later, made', ids)), answered, positive),
        erased,
      ) =
    (
      (
        t,
        i,
        ((evidence, inr made, demo, inr confirmed), (later, inr made', ids)),
        inr answered,
        positive,
      ),
      erased,
    )
Backed-cons call calls terminal ts cs title id h = h

pub finish-IsBacked :
    (calls : List Call) (p : AccountProof) (d : Gate6Decision) → IsBacked calls (finish p d).0
unfolding Backed finish
finish-IsBacked calls p d = (refl, refl, refl, refl)
