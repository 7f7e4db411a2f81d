-- ===== src/Auth/Verifier.antt =====
-- internal/auth/verifier.go: which token a request may come with, and whose session it opens.
mod Grants
pub mod Accepts
use clickhouse_mcp.Config.Numbers.{fields}
use clickhouse_mcp.Config.{OidcConfig, is_unset}
use clickhouse_mcp.Prelude.{
  ℕ, Bool, true, false, ◌||◌, not, List, [], ◌∷◌, Option, none, some, if◌then◌else◌,
}
use clickhouse_mcp.Text.{Text, codes, equal, trim_space}

-- An item of a JSON array, as far as the code tells items apart.
pub data Item : Type 0 where
  text_item : Text → Item
  other_item : Item

-- A claim of `map[string]any`: `claims[key]`, as far as the code tells claims apart.
pub data Claim : Type 0 where
  absent other : Claim
  string : Text → Claim
  array : List Item → Claim

abbrev pub Claims : Type 0
Claims = Text → Claim

-- What the code reads of `oidc.IDToken`; `claims` is `none` where `Claims` fails.
pub record IdToken : Type 0 where
  pub audience : List Text
  pub expiry : ℕ
  pub claims : Option Claims

-- What go-oidc answers on a token; `none` is its error.
abbrev pub TokenCheck : Type 0
TokenCheck = Text → Option IdToken

-- `mcpauth.TokenInfo`.
pub record TokenInfo : Type 0 where
  pub user_id : Text
  pub expiration : ℕ
  pub extra : Claims

-- Why a token is refused.
pub data Reason : Type 0 where
  bad_token wrong_audience unreadable_claims missing_claim no_identity : Reason

pub data Verdict : Type 0 where
  accepted : TokenInfo → Verdict
  refused : Reason → Verdict

-- `contains`.
unfoldable pub has : List Text → Text → Bool
has [] want = false
has (s ∷ list) want = equal s want || has list want

unfoldable pub is_item : Item → Text → Bool
is_item (text_item s) want = equal s want
is_item other_item want = false

unfoldable pub has_item : List Item → Text → Bool
unfolding is_item
has_item [] want = false
has_item (i ∷ items) want = is_item i want || has_item items want

unfoldable pub grants : Claim → Text → Bool
grants (string s) want = has (fields s) want
grants (array items) want = has_item items want
grants absent want = false
grants other want = false

-- `accessAllowed`.
unfoldable pub access_allowed : Claims → Text → Text → Bool
access_allowed claims claim want = if is_unset claim then true else grants (claims claim) want

unfoldable pub usable : Claim → Text
usable (string s) = trim_space s
usable (array items) = []
usable absent = []
usable other = []

-- The loop of `identity`.
unfoldable pub first_usable : List Text → Claims → Text
first_usable [] claims = []
first_usable (key ∷ keys) claims =
    let rest = first_usable keys claims in
    let name = usable (claims key) in if is_unset name then rest else name

abbrev pub identity_keys : Text → List Text
identity_keys claim = claim ∷ codes "preferred_username" ∷ codes "email" ∷ codes "sub" ∷ []

-- `identity`.
unfoldable pub identity : Text → Claims → Text
identity claim claims = first_usable (identity_keys claim) claims

unfoldable pub check_identity : OidcConfig → IdToken → Claims → Verdict
check_identity cfg t claims =
    let user = identity cfg.access_policy.identity_claim claims in
    if is_unset user
    then refused no_identity
    else accepted (record { user_id = user; expiration = t.expiry; extra = claims })

unfoldable pub check_claims : OidcConfig → IdToken → Option Claims → Verdict
unfolding check_identity
check_claims cfg t none = refused unreadable_claims
check_claims cfg t (some claims) =
    if access_allowed claims cfg.access_policy.required_claim cfg.access_policy.required_value
    then check_identity cfg t claims
    else refused missing_claim

unfoldable pub check_audience : OidcConfig → Option IdToken → Verdict
unfolding check_claims
check_audience cfg none = refused bad_token
check_audience cfg (some t) =
    if has t.audience cfg.resource_uri then check_claims cfg t t.claims else refused wrong_audience

-- `Verify`.
unfoldable pub verify : OidcConfig → TokenCheck → Text → Verdict
unfolding check_audience
verify cfg check token = check_audience cfg (check token)

-- `Verifier`: the settings, and go-oidc's check without its own test of the audience.
pub record Verifier : Type 0 where
  pub cfg : OidcConfig
  pub check : TokenCheck

unfoldable pub provided : OidcConfig → Option TokenCheck → Option Verifier
provided cfg none = none
provided cfg (some check) = some (record { cfg = cfg; check = check })

-- `NewVerifier`; `discover` is go-oidc's discovery of an issuer, which may fail.
unfoldable pub new_verifier : (Text → Option TokenCheck) → OidcConfig → Option Verifier
unfolding provided
new_verifier discover cfg = provided cfg (discover cfg.issuer)
