-- ===== src/Auth/Proxy/Redirect/Safe.antt =====
-- Which redirects `validateClientRedirect` lets through.
use mathlib.Core.List.{Memᴰ}
use clickhouse_mcp.Auth.Proxy.Redirect.{
  RedirectCheck, safe, missing, bad_scheme, has_fragment, not_https, host_refused, is_loopback_host,
  is_allowed_host, check_host, check_url, validate_client_redirect,
}
use clickhouse_mcp.Auth.Proxy.{Web}
use clickhouse_mcp.Config.{is_unset}
use clickhouse_mcp.Prelude.{
  Bool, true, false, ◌&&◌, ◌||◌, not, List, [], ◌∷◌, ◌++◌, Option, none, some, ◌≡◌, ◌≢◌, ◌⊎◌, inl,
  inr, refl, Bool-cases, if◌then◌else◌,
}
use clickhouse_mcp.Text.{Text, codes, equal, equal_iff, ends_with}

-- The host is one of the allowed names, or a name below one of them.
abbrev pub IsUnder : List Text → Text → Type 0
IsUnder hosts host =
    (suffix : Text) × Memᴰ suffix hosts
    × ((host ≡ suffix) ⊎ (ends_with (codes "." ++ suffix) host ≡ true))

-- The three names of this machine.
abbrev pub IsHere : Text → Type 0
IsHere host = (host ≡ codes "localhost") ⊎ (host ≡ codes "127.0.0.1") ⊎ (host ≡ codes "::1")

-- Where the browser may be sent.
pub record IsSafe (web : Web) (hosts : List Text) (raw : Text) : Type 0 where
  pub url : web.Url
  pub parsed : web.parse raw ≡ some url
  pub no_fragment : web.fragment url ≡ []
  pub host_and_scheme :
      IsHere (web.hostname url)
        × ((web.scheme url ≡ codes "http") ⊎ (web.scheme url ≡ codes "https"))
      ⊎ (web.scheme url ≡ codes "https") × IsUnder hosts (web.hostname url)

or-true : (a b : Bool) → a || b ≡ true → (a ≡ true) ⊎ (b ≡ true)
or-true true b h = inl refl
or-true false b h = inr h

is_loopback_host-IsHere : (host : Text) → is_loopback_host host ≡ true → IsHere host
unfolding is_loopback_host
is_loopback_host-IsHere host h = elim (or-true _ _ h) [
  | inr e ↦ inr (inr ((equal_iff host (codes "::1")).0 e))
  | inl early ↦ elim (or-true _ _ early) [
    | inl e ↦ inl ((equal_iff host (codes "localhost")).0 e)
    | inr e ↦ inr (inl ((equal_iff host (codes "127.0.0.1")).0 e))
  ]
]

is_allowed_host-IsUnder :
    (hosts : List Text) (host : Text) → is_allowed_host hosts host ≡ true → IsUnder hosts host
unfolding is_allowed_host
is_allowed_host-IsUnder [] host h = cc
is_allowed_host-IsUnder (suffix ∷ suffixes) host h = elim (or-true _ _ h) [
  | inl this ↦ elim (or-true _ _ this) [
    | inl e ↦ (suffix, Memᴰ.head refl, inl ((equal_iff host suffix).0 e))
    | inr e ↦ (suffix, Memᴰ.head refl, inr e)
  ]
  | inr later ↦ let (s, m, e) = is_allowed_host-IsUnder suffixes host later in (s, Memᴰ.tail m, e)
]

not_https-ne-safe : not_https ≢ safe
not_https-ne-safe e = cc

if_safe :
    (b : Bool) (c d : RedirectCheck)
    → c ≢ safe
    → (if b then c else d) ≡ safe
    → (b ≡ false) × (d ≡ safe)
if_safe true c d n h = absurd (n h)
if_safe false c d n h = (refl, h)

scheme_known :
    (s : Text)
    → not (equal s (codes "http")) && not (equal s (codes "https")) ≡ false
    → (s ≡ codes "http") ⊎ (s ≡ codes "https")
scheme_known s h = elim (Bool-cases (equal s (codes "http"))) [
  | inl e ↦ inl ((equal_iff s _).0 e)
  | inr e ↦ inr ((equal_iff s (codes "https")).0 (by_tests _ _ e h))
]
  where
    by_tests : (a b : Bool) → a ≡ false → not a && not b ≡ false → b ≡ true
    by_tests true b e h = cc
    by_tests false true e h = refl
    by_tests false false e h = cc

check_host-cases :
    (hosts : List Text) (scheme host : Text)
    → check_host hosts scheme host ≡ safe
    → (scheme ≡ codes "http") ⊎ (scheme ≡ codes "https")
    → IsHere host × ((scheme ≡ codes "http") ⊎ (scheme ≡ codes "https"))
      ⊎ (scheme ≡ codes "https") × IsUnder hosts host
unfolding check_host
check_host-cases hosts scheme host h known = elim (Bool-cases (is_loopback_host host)) [
  | inl l ↦ inl (is_loopback_host-IsHere host l, known)
  | inr l ↦
      let (http, h1) = if_safe _ not_https _ not_https-ne-safe h in
      elim known [
        | inl e ↦ absurd (by_both _ _ ((equal_iff scheme _).1 e) l http)
        | inr e ↦ inr (e, is_allowed_host-IsUnder hosts host (by_tests _ _ l h1))
      ]
]
  where
    by_both : (a b : Bool) → a ≡ true → b ≡ false → a && not b ≡ false → ⊥
    by_both true false e f h = cc
    by_both true true e f h = cc
    by_both false b e f h = cc

    by_tests :
        (a b : Bool)
        → a ≡ false
        → (if a then safe else if b then safe else host_refused) ≡ safe
        → b ≡ true
    by_tests true b e h = cc
    by_tests false true e h = refl
    by_tests false false e h = cc

module _ (web : Web) (hosts : List Text) (raw : Text) where
  check_url-IsSafe :
      (o : Option web.Url) → web.parse raw ≡ o → check_url web hosts o ≡ safe → IsSafe web hosts raw
  unfolding check_url
  check_url-IsSafe none e h = cc
  check_url-IsSafe (some u) e h =
      let (known, h1) = if_safe _ bad_scheme _ (λ x. cc x) h in
      let (whole, h2) = if_safe _ has_fragment _ (λ x. cc x) h1 in
      record {
        url = u;
        parsed = e;
        no_fragment = no_fragment _ whole;
        host_and_scheme = check_host-cases hosts _ _ h2 (scheme_known _ known);
      }
    where
      no_fragment : (f : Text) → not (is_unset f) ≡ false → f ≡ []
      no_fragment f n = elim (Bool-cases (is_unset f)) [
        | inl t ↦ (equal_iff f []).0 (unfold is_unset in t)
        | inr t ↦ cc
      ]

  -- A redirect that `validateClientRedirect` lets through parses, has no fragment, and is either
  -- http or https to localhost, 127.0.0.1 or ::1, or https to an allowed host or to a name below
  -- one.
  pub validate_client_redirect-IsSafe :
      validate_client_redirect web hosts raw ≡ safe → IsSafe web hosts raw
  unfolding validate_client_redirect
  validate_client_redirect-IsSafe h =
      check_url-IsSafe _ refl ((if_safe _ missing _ (λ x. cc x) h).1)
