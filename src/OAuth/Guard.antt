-- ===== src/OAuth/Guard.antt =====
-- `CTraderOAuthCorrelationGuard` of src/CTraderOAuthCorrelation.cpp. The entropy that the system gives
-- is an argument, nothing where it gives none.
use Prim.Native.Nat.{bit_or, bit_xor}
use trade_bot.Base.{
  length, Bool, Option, [], false, if◌then◌else◌, ltb, none, not, some, true, ℕ, ◌%◌, ◌*◌, ◌+◌, ◌-◌,
  ◌/◌, ◌==◌, ◌||◌, ◌∷◌,
}
use trade_bot.Base.Int.{int64_max, leb_ℤ, ltb_ℤ, pos, ℤ, ◌+ℤ◌, ◌-ℤ◌}
use trade_bot.Gate7.{Bytes}
use trade_bot.Gate7.Names.{bytes_eq}
use trade_bot.OAuth.{
  CallbackRequest, CorrelationGuard, Decision, ListenerBinding, already_terminal, armed,
  armed_decision, callback_before_arming, callback_expired, cancelled,
  correlation_matched_code_discarded, entropy_unavailable, listener_binding_rejected,
  state_mismatch, terminal, unarmed, unarmed_decision, unexpected_host, unexpected_method,
  unexpected_path, unexpected_remote,
}
use trade_bot.OAuth.Query.{ParsedQuery, parse_query}

-- "127.0.0.1", "127.0.0.1:18080", "GET" and "/ctrader/oauth/callback".
abbrev pub loopback_address : Bytes
loopback_address = 49 ∷ 50 ∷ 55 ∷ 46 ∷ 48 ∷ 46 ∷ 48 ∷ 46 ∷ 49 ∷ []

abbrev pub callback_host : Bytes
callback_host = 49 ∷ 50 ∷ 55 ∷ 46 ∷ 48 ∷ 46 ∷ 48 ∷ 46 ∷ 49 ∷ 58 ∷ 49 ∷ 56 ∷ 48 ∷ 56 ∷ 48 ∷ []

abbrev pub get : Bytes
get = 71 ∷ 69 ∷ 84 ∷ []

abbrev pub callback_path : Bytes
callback_path =
    47 ∷ 99 ∷ 116 ∷ 114 ∷ 97 ∷ 100 ∷ 101 ∷ 114 ∷ 47 ∷ 111 ∷ 97 ∷ 117 ∷ 116 ∷ 104 ∷ 47 ∷ 99 ∷ 97
    ∷ 108 ∷ 108 ∷ 98 ∷ 97 ∷ 99 ∷ 107 ∷ []

abbrev pub loopback_port : ℕ
loopback_port = 18080

-- `CORRELATION_LIFETIME`, in nanoseconds.
abbrev pub lifetime : ℤ
lifetime = pos 60_000_000_000

-- A character of `BASE64URL_ALPHABET`: A to Z, a to z, 0 to 9, '-' and '_'.
unfoldable pub alphabet : ℕ → ℕ
alphabet n =
    if ltb n 26
    then 65 + n
    else if ltb n 52
    then 71 + n
    else if ltb n 62
    then n - 4
    else if n == 62
    then 45
    else 95

-- `block >> s & 0x3f` is `block / 2 ^ s % 64`.
unfoldable pub base64_url_encode : Bytes → Bytes
unfolding alphabet
base64_url_encode [] = []
base64_url_encode (a ∷ []) =
    let block : ℕ = a * 65536 in alphabet (block / 262144 % 64) ∷ alphabet (block / 4096 % 64) ∷ []
base64_url_encode (a ∷ b ∷ []) =
    let block : ℕ = a * 65536 + b * 256 in
    alphabet (block / 262144 % 64) ∷ alphabet (block / 4096 % 64) ∷ alphabet (block / 64 % 64) ∷ []
base64_url_encode (a ∷ b ∷ c ∷ rest) =
    let block : ℕ = a * 65536 + b * 256 + c in
    alphabet (block / 262144 % 64)
    ∷ alphabet (block / 4096 % 64)
    ∷ alphabet (block / 64 % 64)
    ∷ alphabet (block % 64)
    ∷ base64_url_encode rest

-- The loop of `constantTimeEqual`.
unfoldable pub difference : ℕ → Bytes → Bytes → ℕ
difference d (x ∷ xs) (y ∷ ys) = difference (bit_or d (bit_xor x y)) xs ys
difference d xs ys = d

unfoldable pub constant_time_equal : Bytes → Bytes → Bool
unfolding difference
constant_time_equal expected actual =
    if not (length expected == length actual) then false else difference 0 expected actual == 0

-- A guard as it is constructed.
abbrev pub new_guard : CorrelationGuard
new_guard = record {
  phase = unarmed;
  last_decision = unarmed_decision;
  armed_at = pos 0;
  expires_at = pos 0;
  state = [];
}

unfoldable pub finish : CorrelationGuard → Decision → CorrelationGuard × Decision
finish g decision = (record g { state = []; phase = terminal; last_decision = decision }, decision)

-- `phase_ = Phase::Terminal` with a decision, the other fields kept.
abbrev pub stop : CorrelationGuard → Decision → CorrelationGuard × Bool
stop g decision = (record g { phase = terminal; last_decision = decision }, false)

unfoldable pub arm_with_entropy :
    CorrelationGuard → ListenerBinding → ℤ → Bytes → CorrelationGuard × Bool
unfolding finish bytes_eq base64_url_encode
arm_with_entropy g binding now entropy = elim (g.phase) [
  | armed ↦ ((finish g already_terminal).0, false)
  | terminal ↦ (record g { last_decision = already_terminal }, false)
  | unarmed ↦
      if not (bytes_eq binding.address loopback_address) || not (binding.port == loopback_port)
      then stop g listener_binding_rejected
      else if ltb_ℤ (int64_max -ℤ lifetime) now
      then stop g callback_expired
      else (
        record {
          phase = armed;
          last_decision = armed_decision;
          armed_at = now;
          expires_at = now +ℤ lifetime;
          state = base64_url_encode entropy;
        },
        true,
      )
]

unfoldable pub arm : CorrelationGuard → ListenerBinding → ℤ → Option Bytes → CorrelationGuard × Bool
unfolding finish arm_with_entropy
arm g binding now entropy = elim (g.phase) [
  | armed ↦ ((finish g already_terminal).0, false)
  | terminal ↦ (record g { last_decision = already_terminal }, false)
  | unarmed ↦ elim entropy [
    | none ↦ stop g entropy_unavailable
    | some bytes ↦ arm_with_entropy g binding now bytes
  ]
]

unfoldable pub state_for_authorization_request : CorrelationGuard → Bytes
state_for_authorization_request g = elim (g.phase) [ armed ↦ g.state | _ ↦ [] ]

-- The last steps of `consume`; nothing stands for the matched decision of the parser.
unfoldable pub match_state : CorrelationGuard → ParsedQuery → CorrelationGuard × Decision
unfolding finish constant_time_equal
match_state g parsed = elim (parsed.decision) [
  | correlation_matched_code_discarded ↦
      if not (constant_time_equal g.state parsed.state)
      then finish g state_mismatch
      else finish g correlation_matched_code_discarded
  | decision ↦ finish g decision
]

unfoldable pub consume : CorrelationGuard → CallbackRequest → ℤ → CorrelationGuard × Decision
unfolding finish match_state parse_query bytes_eq
consume g request now = elim (g.phase) [
  | unarmed ↦ finish g callback_before_arming
  | terminal ↦ (record g { last_decision = already_terminal }, already_terminal)
  | armed ↦
      if ltb_ℤ now g.armed_at
      then finish g callback_before_arming
      else if leb_ℤ g.expires_at now
      then finish g callback_expired
      else if not (bytes_eq request.remote_address loopback_address)
      then finish g unexpected_remote
      else if not (bytes_eq request.method get)
      then finish g unexpected_method
      else if not (bytes_eq request.host callback_host)
      then finish g unexpected_host
      else if not (bytes_eq request.path callback_path)
      then finish g unexpected_path
      else match_state g (parse_query request.raw_query)
]

unfoldable pub expire_if_due : CorrelationGuard → ℤ → CorrelationGuard × Decision
unfolding finish
expire_if_due g now = elim (g.phase) [
  | unarmed ↦ finish g callback_before_arming
  | terminal ↦ (record g { last_decision = already_terminal }, already_terminal)
  | armed ↦
      if ltb_ℤ now g.armed_at
      then finish g callback_before_arming
      else if ltb_ℤ now g.expires_at
      then (record g { last_decision = armed_decision }, armed_decision)
      else finish g callback_expired
]

unfoldable pub cancel : CorrelationGuard → CorrelationGuard × Decision
unfolding finish
cancel g = elim (g.phase) [
  | terminal ↦ (record g { last_decision = already_terminal }, already_terminal)
  | _ ↦ finish g cancelled
]
