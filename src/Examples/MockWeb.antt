-- ===== src/Examples/MockWeb.antt =====
-- A web in which a text is its own Base64 form, a state is written as a list with lengths in front,
-- and two URLs parse.
use clickhouse_mcp.Auth.Proxy.Flow.Values.{SetsValues}
use clickhouse_mcp.Auth.Proxy.State.Signed.{ReadsBack}
use clickhouse_mcp.Auth.Proxy.{StateData, Web, ProxyConfig}
use clickhouse_mcp.Prelude.{
  false, zero, suc, [], ◌∷◌, ◌++◌, List, Option, none, some, ◌≡◌, refl, ap, ◌∙◌, ℤ, pos, negsuc,
  length, take, drop, if◌then◌else◌,
}
use clickhouse_mcp.Text.{Text, codes, equal, equal_iff}

abbrev pub sized : Text → Text → Text
sized t rest = length t ∷ (t ++ rest)

abbrev time_code : ℤ → Text
time_code (pos n) = 0 ∷ n ∷ []
time_code (negsuc n) = 1 ∷ n ∷ []

abbrev write_state : StateData → Text
write_state d =
    sized d.redirect (sized d.state (sized d.nonce (sized d.sig (time_code d.timestamp))))

abbrev pub with_text : {A : Type 0} → (Text → Text → Option A) → Text → Option A
with_text k [] = none
with_text k (n ∷ s) = k (take n s) (drop n s)

abbrev read_time : (ℤ → StateData) → Text → Option StateData
read_time k (zero ∷ n ∷ []) = some (k (pos n))
read_time k (suc zero ∷ n ∷ []) = some (k (negsuc n))
read_time k s = none

abbrev read_sig : Text → Text → Text → Text → Text → Option StateData
read_sig redirect state nonce sig s =
    read_time
      (λ t. record { redirect = redirect; state = state; nonce = nonce; timestamp = t; sig = sig })
      s

abbrev read_nonce : Text → Text → Text → Text → Option StateData
read_nonce redirect state nonce s = with_text (read_sig redirect state nonce) s

abbrev read_client : Text → Text → Text → Option StateData
read_client redirect state s = with_text (read_nonce redirect state) s

abbrev read_redirect : Text → Text → Option StateData
read_redirect redirect s = with_text (read_client redirect) s

abbrev read_state : Text → Option StateData
read_state s = with_text read_redirect s

abbrev pub Fields : Type 0
Fields = List (Text × Text)

abbrev pub get_field : Fields → Text → Text
get_field [] key = []
get_field ((k, v) ∷ fields) key = if equal k key then v else get_field fields key

-- The client's page, and the upstream's page for a login.
abbrev client_url : Text
client_url = codes "https://a.ai/cb"

abbrev parse_url : Text → Option (Text × Text)
parse_url raw =
    if equal raw client_url
    then some (codes "https", codes "a.ai")
    else if equal raw (codes "https://up")
    then some (codes "https", codes "m.up")
    else none

abbrev pub small_web : Web
small_web = record {
  Url = Text × Text;
  parse = parse_url;
  scheme = λ u. u.0;
  fragment = λ _. [];
  hostname = λ u. u.1;
  Values = Fields;
  empty = [];
  get = get_field;
  set = λ k v fields. (k, v) ∷ fields;
  encode = λ fields. get_field fields (codes "grant_type");
  query = λ _. [];
  with_query = λ u fields. u.1 ++ get_field fields (codes "code");
  marshal = λ d. some (write_state d);
  unmarshal = read_state;
  encode64 = λ raw. raw;
  decode64 = λ s. some s;
  mac = λ s. s;
}

take-sized : (t rest : Text) → take (length t) (t ++ rest) ≡ t
take-sized [] rest = refl
take-sized (c ∷ t) rest = ap (◌∷◌ c) (take-sized t rest)

drop-sized : (t rest : Text) → drop (length t) (t ++ rest) ≡ rest
drop-sized [] rest = refl
drop-sized (c ∷ t) rest = drop-sized t rest

pub with_text-sized :
    {A : Type 0} (k : Text → Text → Option A) (t rest : Text)
    → with_text k (sized t rest) ≡ k t rest
with_text-sized k t rest = rw (take-sized t rest, drop-sized t rest)

read_time-time_code : (k : ℤ → StateData) (t : ℤ) → read_time k (time_code t) ≡ some (k t)
read_time-time_code k (pos n) = refl
read_time-time_code k (negsuc n) = refl

read_state-write_state : (d : StateData) → read_state (write_state d) ≡ some d
read_state-write_state d =
    let end : Text = time_code d.timestamp in
    with_text-sized read_redirect d.redirect (sized d.state (sized d.nonce (sized d.sig end)))
    ∙ with_text-sized (read_client d.redirect) d.state (sized d.nonce (sized d.sig end))
    ∙ with_text-sized (read_nonce d.redirect d.state) d.nonce (sized d.sig end)
    ∙ with_text-sized (read_sig d.redirect d.state d.nonce) d.sig end
    ∙ read_time-time_code
        (λ t. record {
          redirect = d.redirect;
          state = d.state;
          nonce = d.nonce;
          timestamp = t;
          sig = d.sig;
        })
        d.timestamp

by_some : {a b : Text} → some a ≡ some b → b ≡ a
by_some e = cc

pub small_web-ReadsBack : ReadsBack small_web
small_web-ReadsBack = record {
  decodes = λ raw. refl;
  parses = λ d raw e. ap read_state (by_some e) ∙ read_state-write_state d;
}

abbrev pub small_proxy : ProxyConfig
small_proxy = record {
  public_url = codes "https://m";
  client_id = codes "c";
  scopes = [];
  upstream_auth_url = codes "https://up";
  upstream_token_url = codes "https://up/token";
  client_secret = codes "s";
  allowed_redirect_hosts = codes "a.ai" ∷ [];
}

pub get_field-head : (k v : Text) (fields : Fields) → get_field ((k, v) ∷ fields) k ≡ v
get_field-head k v fields = rw ((equal_iff k k).1 refl) refl

pub get_field-tail :
    (k v other : Text) (fields : Fields)
    → equal k other ≡ false
    → get_field ((k, v) ∷ fields) other ≡ get_field fields other
get_field-tail k v other fields h = rw h refl

pub small_web-SetsValues : SetsValues small_web
small_web-SetsValues = record { got = get_field-head; kept = get_field-tail; none_set = λ k. refl }
