-- ===== src/Examples/LoginWitness.antt =====
-- A whole login at concrete inputs, in a web whose URLs are written with their values.
use clickhouse_mcp.Auth.Proxy.Flow.{Request}
use clickhouse_mcp.Auth.Proxy.{Web}
use clickhouse_mcp.Examples.MockWeb.{small_web, Fields, get_field, sized, with_text}
use clickhouse_mcp.Examples.ProxyWitnesses.{page, blob}
use clickhouse_mcp.Prelude.{ℕ, zero, suc, [], ◌∷◌, Option, none, some, length}
use clickhouse_mcp.Text.{Text, codes}

-- The values in order, each key and value with its length in front.
abbrev write_fields : Fields → Text
write_fields [] = []
write_fields ((k, v) ∷ fields) = sized k (sized v (write_fields fields))

abbrev add_pair : Text → Text → Option Fields → Option Fields
add_pair k v none = none
add_pair k v (some fields) = some ((k, v) ∷ fields)

abbrev read_value : (Text → Option Fields) → Text → Text → Option Fields
read_value rest k s = with_text (λ v r. add_pair k v (rest r)) s

abbrev read_fields : ℕ → Text → Option Fields
read_fields zero s = some []
read_fields (suc n) [] = some []
read_fields (suc n) (c ∷ s) = with_text (read_value (read_fields n)) (c ∷ s)

-- A scheme, a host and the values of the query.
abbrev Address : Type 0
Address = Text × Text × Fields

abbrev with_fields : Text → Text → Option Fields → Option Address
with_fields scheme host none = none
with_fields scheme host (some fields) = some (scheme, host, fields)

abbrev read_query : Text → Text → Text → Option Address
read_query scheme host [] = none
read_query scheme host (n ∷ s) = with_fields scheme host (read_fields n s)

abbrev read_host : Text → Text → Option Address
read_host scheme s = with_text (read_query scheme) s

abbrev plain_url : Option (Text × Text) → Option Address
plain_url none = none
plain_url (some (scheme, host)) = some (scheme, host, [])

abbrev parse_address : Text → Option Address
parse_address [] = none
parse_address (zero ∷ s) = with_text read_host s
parse_address (suc c ∷ s) = plain_url (small_web.parse (suc c ∷ s))

abbrev write_address : Address → Fields → Text
write_address (scheme, host, _) fields =
    0 ∷ sized scheme (sized host (length fields ∷ write_fields fields))

abbrev round_web : Web
round_web = record {
  Url = Address;
  parse = parse_address;
  scheme = λ u. u.0;
  fragment = λ _. [];
  hostname = λ u. u.1;
  Values = Fields;
  empty = [];
  get = get_field;
  set = λ k v fields. (k, v) ∷ fields;
  encode = write_fields;
  query = λ u. u.2;
  with_query = write_address;
  marshal = small_web.marshal;
  unmarshal = small_web.unmarshal;
  encode64 = λ raw. raw;
  decode64 = λ s. some s;
  mac = λ s. s;
}

abbrev asked : Request round_web
asked = record {
  method = codes "GET";
  query =
      (codes "redirect_uri", page)
      ∷ (codes "state", codes "st")
      ∷ (codes "code_challenge", codes "x")
      ∷ (codes "code_challenge_method", codes "S256")
      ∷ [];
  form = none;
}

abbrev sent : Fields
sent =
    (codes "state", blob)
    ∷ (codes "code_challenge_method", codes "S256")
    ∷ (codes "code_challenge", codes "x")
    ∷ (codes "redirect_uri", codes "https://m/oauth/callback")
    ∷ (codes "response_type", codes "code")
    ∷ (codes "client_id", codes "c")
    ∷ []

abbrev upstream : Address
upstream = (codes "https", codes "m.up", sent)

abbrev back : Request round_web
back = record {
  method = codes "GET";
  query = (codes "code", codes "k") ∷ (codes "state", blob) ∷ [];
  form = none;
}
