-- ===== src/Auth/Proxy/Flow/Guarded.antt =====
-- Where the callback of the login flow sends the browser.
use clickhouse_mcp.Auth.Proxy.Flow.{
  Response, failed, found, is_safe, Request, to_client, with_state, end_flow, is_bad_code,
  handle_callback,
}
use clickhouse_mcp.Auth.Proxy.Redirect.Safe.{IsSafe, validate_client_redirect-IsSafe}
use clickhouse_mcp.Auth.Proxy.Redirect.{
  RedirectCheck, safe, missing, unparseable, bad_scheme, has_fragment, not_https, host_refused,
}
use clickhouse_mcp.Auth.Proxy.State.Signed.{IsGenuine, verify_state-IsGenuine}
use clickhouse_mcp.Auth.Proxy.State.{Opened, opened, rejected, verify_state}
use clickhouse_mcp.Auth.Proxy.{Web, ProxyConfig}
use clickhouse_mcp.Config.{is_unset}
use clickhouse_mcp.Prelude.{
  ℕ, ◌≤◌, Bool, true, false, not, [], Option, none, some, ◌≡◌, ◌≢◌, ◌⊎◌, inl, inr, refl, arith,
  if◌then◌else◌,
}
use clickhouse_mcp.Text.{Text, codes, equal, equal_iff, byte_length}

pub is_safe-safe : (c : RedirectCheck) → is_safe c ≡ true → c ≡ safe
unfolding is_safe
is_safe-safe safe h = refl
is_safe-safe missing h = cc
is_safe-safe unparseable h = cc
is_safe-safe bad_scheme h = cc
is_safe-safe has_fragment h = cc
is_safe-safe not_https h = cc
is_safe-safe host_refused h = cc

module _ (web : Web) (p : ProxyConfig) where
  -- Where the browser goes from the callback, and why it may.
  pub record IsReturn (now : ℕ) (r : Request web) (location : Text) : Type 0 where
    pub asked : r.method ≡ codes "GET"
    pub no_error : web.get r.query (codes "error") ≡ []
    pub has_code : web.get r.query (codes "code") ≢ []
    pub is_short : byte_length (web.get r.query (codes "code")) ≤ 4096
    pub client_redirect : Text
    pub client_state : Text
    pub dest : web.Url
    pub genuine : IsGenuine web now (web.get r.query (codes "state")) client_redirect client_state
    pub allowed : IsSafe web p.allowed_redirect_hosts client_redirect
    pub parsed : web.parse client_redirect ≡ some dest
    pub location_is :
        (client_state ≡ [])
          × (location
              ≡ web.with_query dest
                  (web.set (codes "code") (web.get r.query (codes "code")) (web.query dest)))
        ⊎ (client_state ≢ [])
          × (location
              ≡ web.with_query dest (
                  web.set
                    (codes "state")
                    client_state
                    (web.set (codes "code") (web.get r.query (codes "code")) (web.query dest))))

  unless_failed :
      (b : Bool) (code : ℕ) (message : Text) (d : Response) (location : Text)
      → (if b then failed code message else d) ≡ found location
      → (b ≡ false) × (d ≡ found location)
  unless_failed true code message d location h = cc
  unless_failed false code message d location h = (refl, h)

  when_safe :
      (b : Bool) (code : ℕ) (message : Text) (d : Response) (location : Text)
      → (if b then d else failed code message) ≡ found location
      → (b ≡ true) × (d ≡ found location)
  when_safe true code message d location h = (refl, h)
  when_safe false code message d location h = cc

  -- The client's state goes along if there is one.
  with_state-cases :
      (client_state : Text) (dest : web.Url) (q : web.Values) (location : Text)
      → location ≡ web.with_query dest (with_state web p client_state q)
      → (client_state ≡ []) × (location ≡ web.with_query dest q)
        ⊎ (client_state ≢ [])
          × (location ≡ web.with_query dest (web.set (codes "state") client_state q))
  unfolding with_state is_unset
  with_state-cases client_state dest q location = by_test _ refl
    where
      by_test :
          (b : Bool)
          → equal client_state [] ≡ b
          → location ≡ web.with_query dest (if b then q else web.set (codes "state") client_state q)
          → (client_state ≡ []) × (location ≡ web.with_query dest q)
            ⊎ (client_state ≢ [])
              × (location ≡ web.with_query dest (web.set (codes "state") client_state q))
      by_test true e h = inl ((equal_iff client_state []).0 e, h)
      by_test false e h = inr ((λ n. let same = (equal_iff client_state []).1 n in cc), h)

  good_code :
      (code : Text) → is_bad_code web p code ≡ false → (code ≢ []) × (byte_length code ≤ 4096)
  unfolding is_bad_code is_unset
  good_code code h = ((λ e. let unset = (equal_iff code []).1 e in ground arith), ground arith)

  to_client_found :
      (code client_state location : Text) (o : Option web.Url)
      → to_client web p code client_state o ≡ found location
      → (dest : web.Url) × (o ≡ some dest)
        × (location
            ≡ web.with_query dest
                (with_state web p client_state (web.set (codes "code") code (web.query dest))))
  unfolding to_client
  to_client_found code client_state location none h = cc
  to_client_found code client_state location (some dest) h = (dest, refl, cc h)

  end_flow_found :
      (now : ℕ) (r : Request web) (location : Text) (o : Opened)
      → verify_state web now (web.get r.query (codes "state")) ≡ o
      → r.method ≡ codes "GET"
      → web.get r.query (codes "error") ≡ []
      → is_bad_code web p (web.get r.query (codes "code")) ≡ false
      → end_flow web p (web.get r.query (codes "code")) o ≡ found location
      → IsReturn now r location
  unfolding end_flow
  end_flow_found now r location (rejected _) e get fine good h = cc
  end_flow_found now r location (opened client_redirect client_state) e get fine good h =
      let (is_ok, h1) = when_safe _ _ _ _ location h in
      let (dest, parsed, at) = to_client_found _ _ location _ h1 in
      let (has_code, is_short) = good_code _ good in
      record {
        asked = get;
        no_error = fine;
        has_code = has_code;
        is_short = is_short;
        client_redirect = client_redirect;
        client_state = client_state;
        dest = dest;
        genuine = verify_state-IsGenuine web now _ client_redirect client_state e;
        allowed =
            validate_client_redirect-IsSafe web p.allowed_redirect_hosts client_redirect
              (is_safe-safe _ is_ok);
        parsed = parsed;
        location_is = with_state-cases client_state dest _ location at;
      }

  is_get : (m : Text) → not (equal m (codes "GET")) ≡ false → m ≡ codes "GET"
  is_get m h = (equal_iff m (codes "GET")).0 (ground arith)

  is_none : (e : Text) → not (is_unset e) ≡ false → e ≡ []
  unfolding is_unset
  is_none e h = (equal_iff e []).0 (ground arith)

  -- If the callback redirects the browser, then for a GET without an error and with a code of at
  -- most 4096 bytes, to a redirect that the proxy signed itself no more than ten minutes ago and
  -- that is safe, with the code of the request and the state that the client had given, if any.
  pub handle_callback-IsReturn :
      (now : ℕ) (r : Request web) (location : Text)
      → handle_callback web p now r ≡ found location
      → IsReturn now r location
  unfolding handle_callback
  handle_callback-IsReturn now r location h =
      let (get, h1) =
        unless_failed (not (equal r.method (codes "GET"))) 405 (codes "method not allowed") _
          location h in
      let (fine, h2) =
        unless_failed (not (is_unset (web.get r.query (codes "error")))) 400
          (codes "upstream authorization failed") _ location h1 in
      let (good, h3) =
        unless_failed (is_bad_code web p (web.get r.query (codes "code"))) 400
          (codes "missing code") _ location h2 in
      end_flow_found now r location _ refl (is_get _ get) (is_none _ fine) good h3
