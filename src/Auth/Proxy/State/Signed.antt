-- ===== src/Auth/Proxy/State/Signed.antt =====
-- What the signed state of the login flow carries from `signState` to `verifyState`.
use clickhouse_mcp.Auth.Proxy.State.{
  Opened, opened, rejected, expired, bad_signature, second, max_state_age, is_stale, unsigned,
  signed_with, mac_of, state_mac, packed, sign_with, sign_state, check_state, check_parsed,
  check_raw, verify_state,
}
use clickhouse_mcp.Auth.Proxy.{StateData, Web}
use clickhouse_mcp.Prelude.{
  ℕ, suc, ◌+◌, ◌*◌, ◌/◌, ◌≤◌, ℤ, negsuc, [], ap, Bool, true, false, Option, none, some, ◌≡◌, refl,
  pos, arith, if◌then◌else◌, sym, ◌∙◌,
}
use clickhouse_mcp.Text.{Text, equal_iff}

-- Base64 and JSON read back what they wrote.
pub record ReadsBack (web : Web) : Type 0 where
  pub decodes : (raw : Text) → web.decode64 (web.encode64 raw) ≡ some raw
  pub parses : (d : StateData) (raw : Text) → web.marshal d ≡ some raw → web.unmarshal raw ≡ some d

-- Seconds since 1970 that lie no more than ten minutes before now, and no more than one after.
unfoldable pub IsFresh : ℕ → ℤ → Type 0
IsFresh now (pos t) = (now ≤ (t + 600) * 1000000000) × (t * 1000000000 ≤ now + 60000000000)
IsFresh now (negsuc n) = now + suc n * 1000000000 ≤ 600000000000

is_stale-IsFresh : (now : ℕ) (t : ℤ) → is_stale now t ≡ false → IsFresh now t
unfolding is_stale IsFresh
is_stale-IsFresh now (pos t) h = (ground arith, ground arith)
is_stale-IsFresh now (negsuc n) h = ground arith

-- What a state must be to open: data that is signed under the key, and in time.
pub record IsGenuine (web : Web) (now : ℕ) (encoded redirect state : Text) : Type 0 where
  pub raw : Text
  pub nonce : Text
  pub timestamp : ℤ
  pub sig : Text
  pub decoded : web.decode64 encoded ≡ some raw
  pub parsed :
      web.unmarshal raw
      ≡ some (record {
        redirect = redirect;
        state = state;
        nonce = nonce;
        timestamp = timestamp;
        sig = sig;
      })
  pub canonical : Text
  pub is_canonical :
      web.marshal (record {
        redirect = redirect;
        state = state;
        nonce = nonce;
        timestamp = timestamp;
        sig = [];
      })
      ≡ some canonical
  pub signed : sig ≡ web.mac canonical
  pub fresh : IsFresh now timestamp

module _ (web : Web) (now : ℕ) (redirect state : Text) where
  abbrev Opens : Opened → Type 0
  Opens o = o ≡ opened redirect state

  opened-fields : (r s : Text) → Opens (opened r s) → (r ≡ redirect) × (s ≡ state)
  opened-fields r s h = (cc h, cc h)

  check_state_sound :
      (d : StateData) (o : Option Text)
      → Opens (check_state web now d o)
      → (want : Text) × (o ≡ some want)
        × (d.sig ≡ want)
        × (is_stale now d.timestamp ≡ false)
        × (d.redirect ≡ redirect)
        × (d.state ≡ state)
  unfolding check_state
  check_state_sound d none h = cc
  check_state_sound d (some want) h =
      let (e, f, r, s) = by_tests _ _ h in (want, refl, (equal_iff d.sig want).0 e, f, r, s)
    where
      by_tests :
          (a b : Bool)
          → Opens (
              if a
              then if b then rejected expired else opened d.redirect d.state
              else rejected bad_signature)
          → (a ≡ true) × (b ≡ false) × (d.redirect ≡ redirect) × (d.state ≡ state)
      by_tests true true h = cc
      by_tests true false h = let (r, s) = opened-fields _ _ h in (refl, refl, r, s)
      by_tests false b h = cc

  check_parsed_sound :
      (o : Option StateData)
      → Opens (check_parsed web now o)
      → (d : StateData) × (o ≡ some d) × Opens (check_state web now d (state_mac web d))
  unfolding check_parsed
  check_parsed_sound none h = cc
  check_parsed_sound (some d) h = (d, refl, h)

  check_raw_sound :
      (o : Option Text)
      → Opens (check_raw web now o)
      → (raw : Text) × (o ≡ some raw) × Opens (check_parsed web now (web.unmarshal raw))
  unfolding check_raw
  check_raw_sound none h = cc
  check_raw_sound (some raw) h = (raw, refl, h)

module _ (web : Web) where
  mac_of_sound :
      (o : Option Text) (want : Text)
      → mac_of web o ≡ some want
      → (c : Text) × (o ≡ some c) × (web.mac c ≡ want)
  unfolding mac_of
  mac_of_sound none want h = cc
  mac_of_sound (some c) want h = (c, refl, cc h)

  packed_sound :
      (o : Option Text) (blob : Text)
      → packed web o ≡ some blob
      → (raw : Text) × (o ≡ some raw) × (web.encode64 raw ≡ blob)
  unfolding packed
  packed_sound none blob h = cc
  packed_sound (some raw) blob h = (raw, refl, cc h)

  sign_with_sound :
      (d : StateData) (o : Option Text) (blob : Text)
      → sign_with web d o ≡ some blob
      → (mac : Text) × (o ≡ some mac)
        × ((raw : Text) × (web.marshal (signed_with d mac) ≡ some raw) × (web.encode64 raw ≡ blob))
  unfolding sign_with
  sign_with_sound d none blob h = cc
  sign_with_sound d (some mac) blob h = (mac, refl, packed_sound _ blob h)

-- The same data with its redirect and state spelled otherwise.
renamed :
    (d : StateData) (redirect state : Text)
    → d.redirect ≡ redirect
    → d.state ≡ state
    → d ≡ record {
      redirect = redirect;
      state = state;
      nonce = d.nonce;
      timestamp = d.timestamp;
      sig = d.sig;
    }
renamed d redirect state r s = λ i. record {
  redirect = r i;
  state = s i;
  nonce = d.nonce;
  timestamp = d.timestamp;
  sig = d.sig;
}

-- A state that opens is genuine: it holds the redirect and the state that it opens to, with the
-- HMAC of all its data but the HMAC itself, under the proxy's key, and a timestamp that lies no
-- more than ten minutes before now and no more than one minute after.
pub verify_state-IsGenuine :
    (web : Web) (now : ℕ) (encoded redirect state : Text)
    → verify_state web now encoded ≡ opened redirect state
    → IsGenuine web now encoded redirect state
unfolding verify_state state_mac
verify_state-IsGenuine web now encoded redirect state h =
    let (raw, decoded, h1) = check_raw_sound web now redirect state (web.decode64 encoded) h in
    let (d, parsed, h2) = check_parsed_sound web now redirect state (web.unmarshal raw) h1 in
    let (want, mac, sig, fresh, r, s) =
      check_state_sound web now redirect state d (state_mac web d) h2 in
    let (c, canonical, is_mac) = mac_of_sound web _ want mac in
    record {
      raw = raw;
      nonce = d.nonce;
      timestamp = d.timestamp;
      sig = d.sig;
      decoded = decoded;
      parsed = parsed ∙ ap some (renamed d redirect state r s);
      canonical = c;
      is_canonical = sym (ap web.marshal (ap unsigned (renamed d redirect state r s))) ∙ canonical;
      signed = sig ∙ sym is_mac;
      fresh = is_stale-IsFresh now d.timestamp fresh;
    }

-- A timestamp of this second is in time for ten minutes.
is_stale_later :
    (t now : ℕ)
    → t ≤ now
    → now ≤ t / second * second + max_state_age
    → is_stale now (pos (t / second)) ≡ false
unfolding is_stale
is_stale_later t now h late =
    let floor : t / second * second ≤ t = omega arith in ground (arith, floor)

-- A state that was signed at one time opens, at any later time within ten minutes of the second
-- in which it was signed, to the redirect and the state that were signed, given that Base64 and
-- JSON read back what they wrote.
pub verify_state-sign_state :
    (web : Web) (t now : ℕ) (nonce redirect state blob : Text)
    → ReadsBack web
    → t ≤ now
    → now ≤ t / second * second + max_state_age
    → sign_state web t (some nonce) redirect state ≡ some blob
    → verify_state web now blob ≡ opened redirect state
unfolding sign_state verify_state check_raw check_parsed check_state state_mac
verify_state-sign_state web t now nonce redirect state blob back h late e =
    let (mac, is_mac, (raw, is_raw, is_blob)) = sign_with_sound web _ _ blob e in
    rw (
      sym is_blob,
      back.decodes raw,
      back.parses _ raw is_raw,
      is_mac,
      (equal_iff mac mac).1 refl,
      is_stale_later t now h late,
    )
