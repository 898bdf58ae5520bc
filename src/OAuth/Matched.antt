-- ===== src/OAuth/Matched.antt =====
-- What a matched callback has behind it.
use trade_bot.Base.{
  List, Option, [], ap, ap₂, arith, inl, inr, ltb, none, refl, some, subst, sym, true, ℕ, ◌%◌, ◌<◌,
  ◌∙◌, ◌∷◌, ◌≡◌, ◌⊎◌,
}
use trade_bot.Gate7.Machine.Selection.{bytes_eq→eq}
use trade_bot.Base.Int.{ℤ, ◌+ℤ◌, ◌<ℤ◌, ◌≤ℤ◌}
use trade_bot.Gate7.{Bytes}
use trade_bot.Gate7.Names.{bytes_eq}
use trade_bot.OAuth.{
  CallbackRequest, CorrelationGuard, ListenerBinding, armed, correlation_matched_code_discarded,
}
use trade_bot.OAuth.Guard.{
  alphabet, arm, arm_with_entropy, base64_url_encode, callback_host, callback_path, cancel,
  constant_time_equal, consume, expire_if_due, finish, get, lifetime, loopback_address,
  loopback_port, match_state, new_guard,
}
use trade_bot.OAuth.Query.{parse_query}
use trade_bot.OAuth.OneShot.{Call, apply, arming, callback, cancellation, expiry}
use trade_bot.OAuth.Comparison.{all_bytes, constant_time_equal-bytes_eq}
use trade_bot.OAuth.Parsed.{parse_query-all_bytes}

unfoldable pub run : List Call → CorrelationGuard → CorrelationGuard
unfolding apply
run [] g = g
run (call ∷ calls) g = run calls (apply call g)

-- A call is among those made.
unfoldable pub Made : Call → List Call → Type 0
Made call [] = 0 < 0
Made call (c ∷ calls) = (c ≡ call) ⊎ Made call calls

-- One of the calls armed the guard at that time, on the loopback listener and with that state.
abbrev pub Armed : List Call → ℤ → Bytes → Type 0
Armed calls time state =
    (binding : ListenerBinding) × (entropy : Bytes) × Made (arming binding time (some entropy))
      calls
    × (binding.address ≡ loopback_address)
    × (binding.port ≡ loopback_port)
    × (state ≡ base64_url_encode entropy)

-- What an armed guard has behind it.
abbrev IsBacked : List Call → CorrelationGuard → Type 0
IsBacked calls g =
    g.phase ≡ armed → Armed calls g.armed_at g.state × (g.expires_at ≡ g.armed_at +ℤ lifetime)

arm-Armed :
    (g : CorrelationGuard) (binding : ListenerBinding) (now : ℤ) (entropy : Option Bytes)
    → (arm g binding now entropy).0.phase ≡ armed
    → (bytes : Bytes) × (entropy ≡ some bytes)
      × (bytes_eq binding.address loopback_address ≡ true)
      × (binding.port ≡ loopback_port)
      × ((arm g binding now entropy).0.state ≡ base64_url_encode bytes)
      × ((arm g binding now entropy).0.armed_at ≡ now)
      × ((arm g binding now entropy).0.expires_at ≡ now +ℤ lifetime)
unfolding arm arm_with_entropy finish
arm-Armed g binding now none h = absurd (ground (arith, h))
arm-Armed g binding now (some bytes) h =
    (bytes, refl, ground arith, ground arith, ground arith, ground arith, ground arith)

expire-armed :
    (g : CorrelationGuard) (now : ℤ)
    → (expire_if_due g now).0.phase ≡ armed
    → (g.phase ≡ armed)
      × ((expire_if_due g now).0.state ≡ g.state)
      × ((expire_if_due g now).0.armed_at ≡ g.armed_at)
      × ((expire_if_due g now).0.expires_at ≡ g.expires_at)
unfolding expire_if_due finish
expire-armed g now h = (ground arith, ground arith, ground arith, ground arith)

-- A further call leaves what is behind a guard that keeps its state and its times.
Armed-later :
    (calls : List Call) (call : Call) (g r : CorrelationGuard)
    → r.state ≡ g.state
    → r.armed_at ≡ g.armed_at
    → r.expires_at ≡ g.expires_at
    → Armed calls g.armed_at g.state × (g.expires_at ≡ g.armed_at +ℤ lifetime)
    → Armed (call ∷ calls) r.armed_at r.state × (r.expires_at ≡ r.armed_at +ℤ lifetime)
unfolding Made
Armed-later calls call g r state time due ((binding, entropy, made, address, port, same), later) = (
  (
    binding,
    entropy,
    inr (subst (λ t. Made (arming binding t (some entropy)) calls) (sym time) made),
    address,
    port,
    state ∙ same,
  ),
  due ∙ later ∙ ap (λ t. t +ℤ lifetime) (sym time),
)

apply-IsBacked :
    (calls : List Call) (call : Call) (g : CorrelationGuard)
    → IsBacked calls g
    → IsBacked (call ∷ calls) (apply call g)
unfolding apply Made consume match_state finish cancel
apply-IsBacked calls (arming binding now entropy) g backed h =
    let (bytes, given, address, port, state, time, due) = arm-Armed g binding now entropy h in
    (
      (
        binding,
        bytes,
        inl (ap₂ (arming binding) (sym time) given),
        bytes_eq→eq _ _ address,
        port,
        state,
      ),
      due ∙ ap (λ t. t +ℤ lifetime) (sym time),
    )
apply-IsBacked calls (callback request now) g backed h = absurd (ground (arith, h))
apply-IsBacked calls (expiry now) g backed h =
    let (here, state, time, due) = expire-armed g now h in
    Armed-later calls (expiry now) g (expire_if_due g now).0 state time due (backed here)
apply-IsBacked calls cancellation g backed h = absurd (ground (arith, h))

-- The calls made so far, the latest first.
abbrev made_so_far : List Call → List Call → List Call
made_so_far [] past = past
made_so_far (call ∷ calls) past = made_so_far calls (call ∷ past)

Made-made_so_far :
    (call : Call) (calls past : List Call)
    → Made call (made_so_far calls past)
    → Made call calls ⊎ Made call past
unfolding Made
Made-made_so_far call [] past h = inr h
Made-made_so_far call (c ∷ calls) past h = elim (Made-made_so_far call calls (c ∷ past) h) [
  | inl later ↦ inl (inr later)
  | inr (inl now) ↦ inl (inl now)
  | inr (inr before) ↦ inr before
]

Made-anywhere :
    (call : Call) (calls : List Call) → Made call (made_so_far calls []) → Made call calls
unfolding Made
Made-anywhere call calls h = elim (Made-made_so_far call calls [] h) [
  | inl made ↦ made
  | inr nothing ↦ absurd (omega arith)
]

run-IsBacked :
    (calls past : List Call) (g : CorrelationGuard)
    → IsBacked past g
    → IsBacked (made_so_far calls past) (run calls g)
unfolding run
run-IsBacked [] past g backed = backed
run-IsBacked (call ∷ calls) past g backed =
    run-IsBacked calls (call ∷ past) (apply call g) (apply-IsBacked past call g backed)

alphabet-byte : (n : ℕ) → ltb (alphabet (n % 64)) 256 ≡ true
unfolding alphabet
alphabet-byte n = let below : n % 64 < 64 = omega arith in ground arith

base64_url_encode-all_bytes : (entropy : Bytes) → all_bytes (base64_url_encode entropy) ≡ true
unfolding base64_url_encode all_bytes
base64_url_encode-all_bytes [] = refl
base64_url_encode-all_bytes (a ∷ []) = rw (alphabet-byte _, alphabet-byte _) refl
base64_url_encode-all_bytes (a ∷ b ∷ []) =
    rw (alphabet-byte _, alphabet-byte _, alphabet-byte _) refl
base64_url_encode-all_bytes (a ∷ b ∷ c ∷ rest) =
    rw (alphabet-byte _, alphabet-byte _, alphabet-byte _, alphabet-byte _)
      (base64_url_encode-all_bytes rest)

-- The tests that a matched callback has passed.
passed :
    (g : CorrelationGuard) (request : CallbackRequest) (now : ℤ)
    → (consume g request now).1 ≡ correlation_matched_code_discarded
    → (g.phase ≡ armed)
      × (g.armed_at ≤ℤ now)
      × (now <ℤ g.expires_at)
      × (bytes_eq request.remote_address loopback_address ≡ true)
      × (bytes_eq request.method get ≡ true)
      × (bytes_eq request.host callback_host ≡ true)
      × (bytes_eq request.path callback_path ≡ true)
      × (constant_time_equal g.state (parse_query request.raw_query).state ≡ true)
unfolding consume match_state finish
passed g request now h = (
  ground arith,
  ground arith,
  ground arith,
  ground arith,
  ground arith,
  ground arith,
  ground arith,
  ground arith,
)

-- The one request that answers the callback's listener, with that state.
pub record IsExpected (request : CallbackRequest) : Type 0 where
  pub remote : request.remote_address ≡ loopback_address
  pub method : request.method ≡ get
  pub host : request.host ≡ callback_host
  pub path : request.path ≡ callback_path

-- A callback whose query is made of bytes is matched, after any calls on a new guard, only if one of
-- these calls armed the guard on the loopback address and port, not after the callback and less than
-- the lifetime before it; the state that the query gives is then the encoding of the entropy of that
-- call, and the request has the expected peer, method, host and path.
pub consume-Armed :
    (calls : List Call) (request : CallbackRequest) (now : ℤ)
    → all_bytes request.raw_query ≡ true
    → (consume (run calls new_guard) request now).1 ≡ correlation_matched_code_discarded
    → (time : ℤ) × Armed calls time (parse_query request.raw_query).state
      × (time ≤ℤ now)
      × (now <ℤ time +ℤ lifetime)
      × IsExpected request
consume-Armed calls request now bytes h =
    let g : CorrelationGuard = run calls new_guard in
    let (here, begun, in_time, remote, method, host, path, answered) = passed g request now h in
    let ((binding, entropy, made, address, port, state), due) =
      run-IsBacked calls [] new_guard (λ e. absurd (ground (arith, e))) here in
    let own : all_bytes g.state ≡ true = rw state (base64_url_encode-all_bytes entropy) in
    let same : g.state ≡ (parse_query request.raw_query).state = bytes_eq→eq _ _ (
      sym (
        constant_time_equal-bytes_eq g.state (parse_query request.raw_query).state own
          (parse_query-all_bytes request.raw_query bytes))
      ∙ answered) in
    (
      g.armed_at,
      (binding, entropy, Made-anywhere _ calls made, address, port, sym same ∙ state),
      begun,
      subst (λ t. now <ℤ t) due in_time,
      record {
        remote = bytes_eq→eq _ _ remote;
        method = bytes_eq→eq _ _ method;
        host = bytes_eq→eq _ _ host;
        path = bytes_eq→eq _ _ path;
      },
    )
