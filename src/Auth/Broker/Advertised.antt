-- ===== src/Auth/Broker/Advertised.antt =====
-- The metadata of the broker says what its endpoints are and what they take.
use mathlib.Core.List.Memᴰ
use mathlib.Core.List.{Memᴰ}
use clickhouse_mcp.Auth.Broker.{
  text, texts, Route, register, authorize, token, routes, auth_server_metadata,
}
use clickhouse_mcp.Auth.Proxy.Flow.{is_grant, has_challenge, max_oauth_field}
use clickhouse_mcp.Config.{is_unset}
use clickhouse_mcp.Auth.Proxy.{Web, ProxyConfig}
use clickhouse_mcp.Prelude.{
  Bool, true, false, ◌||◌, not, List, [], ◌∷◌, ◌++◌, Option, none, some, ◌≡◌, ◌↔◌, ◌⊎◌, inl, inr,
  refl, if◌then◌else◌, Bool-cases, ltb,
}
use clickhouse_mcp.Text.{Text, codes, equal, equal_iff, byte_length}

-- The first value under a key.
abbrev pub field_at {ℓ} : {A : Type ℓ} → Text → List (Text × A) → Option A
field_at key [] = none
field_at key ((k, v) ∷ fields) = if equal k key then some v else field_at key fields

-- The metadata gives a key as the public address of a path, and the path leads to a route.
pub record LeadsTo (p : ProxyConfig) (V : Type 0) (key : Text) (route : Route) : Type 0 where
  pub path : Text
  pub advertised :
      field_at key (auth_server_metadata {V = V} p) ≡ some (text (p.public_url ++ path))
  pub routed : field_at path routes ≡ some route

-- What a client reads in the metadata about a list of names.
abbrev pub Advertises : ProxyConfig → Type 0 → Text → List Text → Type 0
Advertises p V key names = field_at key (auth_server_metadata {V = V} p) ≡ some (texts names)

abbrev advertised_grants : List Text
advertised_grants = codes "authorization_code" ∷ codes "refresh_token" ∷ []

equal_either-Memᴰ : (g a b : Text) → (equal g a || equal g b ≡ true) ↔ Memᴰ g (a ∷ b ∷ [])
equal_either-Memᴰ g a b = (
  λ e. by_test (Bool-cases (equal g a)) e,
  λ m. elim (Memᴰ.cases_cons m) [
    | inl e ↦ rw ((equal_iff g a).1 e) refl
    | inr n ↦ by_second (equal g a) ((equal_iff g b).1 (Memᴰ.eq_of_singleton n))
  ],
)
  where
    by_rest : (x y : Bool) → x ≡ false → x || y ≡ true → y ≡ true
    by_rest true y h e = cc
    by_rest false y h e = e

    by_test :
        ((equal g a ≡ true) ⊎ (equal g a ≡ false))
        → equal g a || equal g b ≡ true
        → Memᴰ g (a ∷ b ∷ [])
    by_test (inl h) e = Memᴰ.head ((equal_iff g a).0 h)
    by_test (inr h) e = Memᴰ.tail (Memᴰ.head ((equal_iff g b).0 (by_rest _ _ h e)))

    by_second : (x : Bool) {y : Bool} → y ≡ true → x || y ≡ true
    by_second true h = refl
    by_second false h = h

module _ (web : Web) (p : ProxyConfig) where
  is_grant-Memᴰ : (g : Text) → (is_grant web p g ≡ true) ↔ Memᴰ g advertised_grants
  unfolding is_grant
  is_grant-Memᴰ g = equal_either-Memᴰ g _ _

  has_challenge-method :
      (q : web.Values)
      → (has_challenge web p q ≡ false)
        ⊎ Memᴰ (web.get q (codes "code_challenge_method")) (codes "S256" ∷ [])
  unfolding has_challenge
  has_challenge-method q =
      elim (Bool-cases (equal (web.get q (codes "code_challenge_method")) (codes "S256"))) [
        | inl e ↦
            inr (
              Memᴰ.head
                ((equal_iff (web.get q (codes "code_challenge_method")) (codes "S256")).0 e))
        | inr e ↦ inl (
            rw e (
              by_or (ltb max_oauth_field (byte_length (web.get q (codes "code_challenge"))))
                (is_unset (web.get q (codes "code_challenge")))))
      ]
    where
      by_or : (a b : Bool) → not (a || b || true) ≡ false
      by_or true b = refl
      by_or false true = refl
      by_or false false = refl

  -- The endpoints in the metadata are paths under the public URL at which the handlers of that
  -- purpose are mounted; the grants in it are exactly those that the token endpoint takes; and the
  -- authorize endpoint takes no challenge but by a method in it.
  pub auth_server_metadata-LeadsTo :
      (V : Type 0) (g : Text) (q : web.Values)
      → (LeadsTo p V (codes "authorization_endpoint") authorize
          × LeadsTo p V (codes "token_endpoint") token
          × LeadsTo p V (codes "registration_endpoint") register)
        × ((grants : List Text) × Advertises p V (codes "grant_types_supported") grants
            × ((is_grant web p g ≡ true) ↔ Memᴰ g grants))
        × ((methods : List Text) × Advertises p V (codes "code_challenge_methods_supported") methods
            × ((has_challenge web p q ≡ false)
                ⊎ Memᴰ (web.get q (codes "code_challenge_method")) methods))
  unfolding auth_server_metadata equal
  auth_server_metadata-LeadsTo V g q = (
    (
      record { path = codes "/oauth/authorize"; advertised = refl; routed = refl },
      record { path = codes "/oauth/token"; advertised = refl; routed = refl },
      record { path = codes "/oauth/register"; advertised = refl; routed = refl },
    ),
    (advertised_grants, refl, is_grant-Memᴰ g),
    (codes "S256" ∷ [], refl, has_challenge-method q),
  )
