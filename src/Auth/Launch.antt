-- ===== src/Auth/Launch.antt =====
-- `launch_url` and `exchange` of auth.rs: a launch ticket opens one session.
use remote_deck.Base.{
  ℕ, ◌+◌, ◌<◌, ◌≡◌, ◌⊎◌, inl, inr, true, false, none, some, arith, Text, Map, get, get-remove_self,
  get-insert, text_eq, if◌then◌else◌, ok, ◌>>◌, Option-cases, >>-ok, is_ok, length,
}
use remote_deck.Auth.Defs.{
  Auth, Session, Secrets, LaunchTicket, HeaderMap, header_text, check_host, check_origin, cookie_id,
  session_ttl, session_cookie, max_sessions, live_sessions,
}
use remote_deck.Auth.Requests.{exchange}
use remote_deck.Auth.Sessions.{IsOwnOrigin, check_host_ok, check_origin_ok}

-- The sessions afterwards: this one under the id, and the others as they were.
abbrev pub Stores : Text → Session → Map Session → Map Session → Type 0
Stores id session sessions after =
    (k : Text) → get k after ≡ (if text_eq id k then some session else get k sessions)

-- The browser of the session: the one that the cookie named, renewed, or a new one. It is stored under
-- the id that the cookie has from now on.
abbrev pub IsAdmitted :
    Auth → HeaderMap → ℕ → Text → Text → Map Session → Map Session → Session → Type 0
IsAdmitted auth headers now new_id new_csrf sessions after session =
    ((id : Text) × (existing : Session) × (cookie_id auth headers ≡ some id)
      × (get id sessions ≡ some existing)
      × (session ≡ record existing { expires = now + session_ttl })
      × Stores id session sessions after)
    ⊎ ((session ≡ record { id = new_id; csrf = new_csrf; expires = now + session_ttl })
        × (length sessions < max_sessions)
        × Stores new_id session sessions after)

pub exchange_without :
    (auth : Auth) (headers : HeaderMap) (ticket : Text) (now : ℕ) (new_id new_csrf : Text)
    (s : Secrets)
    → get ticket s.launch ≡ none
    → is_ok (exchange auth headers ticket now new_id new_csrf s).1 ≡ false
unfolding exchange
exchange_without auth headers ticket now new_id new_csrf s gone = ground arith

module _ (auth : Auth) (headers : HeaderMap) (ticket : Text) (now : ℕ) (new_id new_csrf : Text)
    (s : Secrets) where
  exchange_gate :
      (r : Session × Text)
      → (exchange auth headers ticket now new_id new_csrf s).1 ≡ ok r
      → (check_host auth headers >> check_origin auth headers true) ≡ ok tt
  unfolding exchange
  exchange_gate r e = ground arith

  exchange_ticket :
      (r : Session × Text)
      → (exchange auth headers ticket now new_id new_csrf s).1 ≡ ok r
      → (t : LaunchTicket) × (get ticket s.launch ≡ some t) × (now < t.expires)
  unfolding exchange
  exchange_ticket r e = elim (Option-cases (get ticket s.launch)) [
    | inl missing ↦ absurd (ground arith)
    | inr (t, pending) ↦ (t, pending, ground arith)
  ]

  pub exchange_takes :
      (check_host auth headers >> check_origin auth headers true) ≡ ok tt
      → get ticket (exchange auth headers ticket now new_id new_csrf s).0.launch ≡ none
  unfolding exchange
  exchange_takes passed = ground (arith, get-remove_self ticket s.launch)

  exchange_admits :
      (session : Session) (cookie : Text)
      → (exchange auth headers ticket now new_id new_csrf s).1 ≡ ok (session, cookie)
      → IsAdmitted auth headers now new_id new_csrf
          (live_sessions now s.sessions)
          (exchange auth headers ticket now new_id new_csrf s).0.sessions
          session
  unfolding exchange
  exchange_admits session cookie e = elim (Option-cases (cookie_id auth headers)) [
    | inl no_cookie ↦ inr (ground arith, ground arith, λ k. grind (arith, get-insert, no_cookie))
    | inr (id, named) ↦ elim (Option-cases (get id (live_sessions now s.sessions))) [
      | inl unknown ↦
          inr (ground arith, ground arith, λ k. grind (arith, get-insert, named, unknown))
      | inr (existing, known) ↦
          inl
            (id, existing, named, known, ground arith, λ k. grind (arith, get-insert, named, known))
    ]
  ]

  -- A session is given only for a pending ticket that has not expired, to a request with this
  -- server's host and an own origin. It is the live session that the request's cookie names,
  -- renewed, or a new one where fewer than `max_sessions` are live. The ticket is used up, and
  -- afterwards the session is stored under its cookie's id, or the new one, with the other sessions
  -- that were live and no more.
  pub exchange_ok :
      (session : Session) (cookie : Text)
      → (exchange auth headers ticket now new_id new_csrf s).1 ≡ ok (session, cookie)
      → (header_text headers "host" ≡ some auth.authority)
        × IsOwnOrigin auth headers true
        × ((t : LaunchTicket) × (get ticket s.launch ≡ some t) × (now < t.expires))
        × (get ticket (exchange auth headers ticket now new_id new_csrf s).0.launch ≡ none)
        × (cookie ≡ session_cookie auth session)
        × IsAdmitted auth headers now new_id new_csrf
            (live_sessions now s.sessions)
            (exchange auth headers ticket now new_id new_csrf s).0.sessions
            session
  unfolding exchange
  exchange_ok session cookie e =
      let (host, origin) = >>-ok _ _ tt (exchange_gate (session, cookie) e) in
      (
        check_host_ok auth headers host,
        check_origin_ok auth headers true origin,
        exchange_ticket (session, cookie) e,
        exchange_takes (exchange_gate (session, cookie) e),
        ground arith,
        exchange_admits session cookie e,
      )
