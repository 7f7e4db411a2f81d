-- ===== src/Auth/Proxy/State.antt =====
-- internal/auth/broker_proxy.go: `signState` and `verifyState`.
pub mod Signed
use clickhouse_mcp.Auth.Proxy.{StateData, Web}
use clickhouse_mcp.Prelude.{
  ℕ, suc, ◌+◌, ◌*◌, ◌/◌, Bool, true, false, ◌||◌, [], Option, none, some, ltb, ℤ, pos, negsuc,
  if◌then◌else◌,
}
use clickhouse_mcp.Text.{Text, equal}

pub data StateError : Type 0 where
  not_decodable not_parseable not_verifiable bad_signature expired : StateError

pub data Opened : Type 0 where
  opened : Text → Text → Opened
  rejected : StateError → Opened

-- Durations and the clock are in nanoseconds, timestamps in seconds from 1970 on.
abbrev pub second : ℕ
second = 1000000000

abbrev pub max_state_age : ℕ
max_state_age = 600 * second

abbrev pub clock_skew : ℕ
clock_skew = 60 * second

-- `age > maxStateAge || age < -clockSkew` for the time since the timestamp.
unfoldable pub is_stale : ℕ → ℤ → Bool
is_stale now (pos t) = ltb (t * second + max_state_age) now || ltb (now + clock_skew) (t * second)
is_stale now (negsuc n) = ltb max_state_age (now + suc n * second)

-- `d.Sig = ""`.
abbrev pub unsigned : StateData → StateData
unsigned d = record {
  redirect = d.redirect;
  state = d.state;
  nonce = d.nonce;
  timestamp = d.timestamp;
  sig = [];
}

abbrev pub signed_with : StateData → Text → StateData
signed_with d mac = record {
  redirect = d.redirect;
  state = d.state;
  nonce = d.nonce;
  timestamp = d.timestamp;
  sig = mac;
}

module _ (web : Web) where
  unfoldable pub mac_of : Option Text → Option Text
  mac_of none = none
  mac_of (some canonical) = some (web.mac canonical)

  -- `stateMAC`.
  unfoldable pub state_mac : StateData → Option Text
  state_mac d = mac_of (web.marshal (unsigned d))

  unfoldable pub packed : Option Text → Option Text
  packed none = none
  packed (some raw) = some (web.encode64 raw)

  unfoldable pub sign_with : StateData → Option Text → Option Text
  unfolding packed
  sign_with d none = none
  sign_with d (some mac) = packed (web.marshal (signed_with d mac))

  -- `signState` at a time; `none` in place of the nonce is a failure of the random source.
  unfoldable pub sign_state : ℕ → Option Text → Text → Text → Option Text
  sign_state now none client_redirect client_state = none
  sign_state now (some nonce) client_redirect client_state =
      let d : StateData = record {
        redirect = client_redirect;
        state = client_state;
        nonce = nonce;
        timestamp = pos (now / second);
        sig = [];
      } in
      sign_with d (state_mac d)

  unfoldable pub check_state : ℕ → StateData → Option Text → Opened
  check_state now d none = rejected not_verifiable
  check_state now d (some want) =
      if equal d.sig want
      then if is_stale now d.timestamp then rejected expired else opened d.redirect d.state
      else rejected bad_signature

  unfoldable pub check_parsed : ℕ → Option StateData → Opened
  check_parsed now none = rejected not_parseable
  check_parsed now (some d) = check_state now d (state_mac d)

  unfoldable pub check_raw : ℕ → Option Text → Opened
  check_raw now none = rejected not_decodable
  check_raw now (some raw) = check_parsed now (web.unmarshal raw)

  -- `verifyState` at a time.
  unfoldable pub verify_state : ℕ → Text → Opened
  verify_state now encoded = check_raw now (web.decode64 encoded)
