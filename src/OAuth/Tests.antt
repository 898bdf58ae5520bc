-- ===== src/OAuth/Tests.antt =====
-- The guard at a concrete callback.
use trade_bot.Base.{List, [], refl, some, suc, true, zero, ℕ, ◌∷◌, ◌≡◌, ◌≤◌}
use trade_bot.Base.Int.{pos, ℤ, ◌+ℤ◌, ◌-ℤ◌, ◌<ℤ◌, ◌≤ℤ◌}
use trade_bot.Gate7.{Bytes}
use trade_bot.Gate7.Names.{bytes_eq}
use trade_bot.OAuth.{CallbackRequest, CorrelationGuard, ListenerBinding, armed, armed_decision}
use trade_bot.OAuth.Guard.{
  arm, callback_host, callback_path, constant_time_equal, consume, get, lifetime, loopback_address,
  loopback_port, new_guard,
}
use trade_bot.OAuth.Comparison.{all_bytes, constant_time_equal-bytes_eq}
use trade_bot.OAuth.OneShot.{Call, arming, callback, count_matches, count_matches-le, expiry}
use trade_bot.OAuth.Query.{parse_query}
use trade_bot.OAuth.Matched.{Armed, IsExpected, consume-Armed, run}

abbrev copies : ℕ → ℕ → Bytes
copies zero c = []
copies (suc n) c = c ∷ copies n c

abbrev armed_guard : CorrelationGuard
armed_guard = record {
  phase = armed;
  last_decision = armed_decision;
  armed_at = pos 5;
  expires_at = pos 60_000_000_005;
  state = copies 43 65;
}

abbrev binding : ListenerBinding
binding = record { address = loopback_address; port = loopback_port }

-- Entropy of 32 zero bytes arms the guard with 43 times 'A'.
arm-zeros : arm new_guard binding (pos 5) (some (copies 32 0)) ≡ (armed_guard, true)
unfolding arm ◌+ℤ◌ ◌-ℤ◌
arm-zeros = refl

-- "code=x&state=" and the state.
abbrev request : CallbackRequest
request = record {
  remote_address = loopback_address;
  method = get;
  host = callback_host;
  path = callback_path;
  raw_query = 99 ∷ 111 ∷ 100 ∷ 101 ∷ 61 ∷ 120 ∷ 38 ∷ 115 ∷ 116 ∷ 97 ∷ 116 ∷ 101 ∷ 61 ∷ copies 43 65;
}

abbrev started : List Call
started = arming binding (pos 5) (some (copies 32 0)) ∷ expiry (pos 8) ∷ []

consume-Armed_example :
    (time : ℤ) × Armed started time (parse_query request.raw_query).state
    × (time ≤ℤ pos 9)
    × (pos 9 <ℤ time +ℤ lifetime)
    × IsExpected request
unfolding consume run parse_query all_bytes ◌+ℤ◌ ◌-ℤ◌
consume-Armed_example = consume-Armed started request (pos 9) refl refl

count_matches-le_example :
    count_matches (callback request (pos 9) ∷ callback request (pos 10) ∷ []) armed_guard ≤ 1
count_matches-le_example =
    count_matches-le (callback request (pos 9) ∷ callback request (pos 10) ∷ []) armed_guard

constant_time_equal-bytes_eq_example :
    constant_time_equal (copies 43 65) (copies 43 66) ≡ bytes_eq (copies 43 65) (copies 43 66)
unfolding all_bytes
constant_time_equal-bytes_eq_example =
    constant_time_equal-bytes_eq (copies 43 65) (copies 43 66) refl refl
