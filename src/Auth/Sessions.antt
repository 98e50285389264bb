-- ===== src/Auth/Sessions.antt =====
-- `require` and `internal` of auth.rs: who is authorized, and what a request changes.
use remote_deck.Base.{
  ℕ, ◌+◌, ◌<◌, ◌≡◌, ◌⊎◌, ◌↔◌, inl, inr, Bool, true, false, none, some, arith, Text, codes,
  text_eq_iff, get, insert, ok, err, ◌>>◌, as_bytes, strip_prefix, Option-cases, Bool-cases,
  Result-cases, >>-ok,
}
use remote_deck.Auth.Defs.{
  Auth, ApiError, Session, Secrets, HeaderMap, header_text, check_host, check_origin, cookie_id,
  session_ttl,
}
use remote_deck.Auth.Requests.{require, internal, current_session, has_csrf, carries_token}
use remote_deck.Auth.ConstantEq.{constant_eq_iff}

pub check_host_ok :
    (auth : Auth) (headers : HeaderMap)
    → check_host auth headers ≡ ok tt
    → header_text headers "host" ≡ some auth.authority
unfolding check_host
check_host_ok auth headers e = elim (Option-cases (header_text headers "host")) [
  | inl missing ↦ ground arith
  | inr (h, is) ↦ ground (arith, text_eq_iff h auth.authority)
]

-- The origin is this server's or the development one; a request that need not have one may lack it.
abbrev pub IsOwnOrigin : Auth → HeaderMap → Bool → Type 0
IsOwnOrigin auth headers required =
    ((o : Text) × (header_text headers "origin" ≡ some o)
      × ((o ≡ auth.origin) ⊎ (auth.dev_origin ≡ some o)))
    ⊎ ((header_text headers "origin" ≡ none) × (required ≡ false))

pub check_origin_ok :
    (auth : Auth) (headers : HeaderMap) (required : Bool)
    → check_origin auth headers required ≡ ok tt
    → IsOwnOrigin auth headers required
unfolding check_origin
check_origin_ok auth headers required e = elim (Option-cases (header_text headers "origin")) [
  | inl missing ↦ inr (missing, ground arith)
  | inr (o, is) ↦ inl (
    o,
    is,
    elim (Option-cases auth.dev_origin) [
      | inl no_dev ↦ ground (arith, text_eq_iff o auth.origin)
      | inr (d, dev) ↦ ground (arith, text_eq_iff o auth.origin, text_eq_iff d o)
    ],
  )
]

-- What `require` has checked when it answers with a session.
pub record IsAuthorized (auth : Auth) (headers : HeaderMap) (mutation : Bool) (now : ℕ)
    (s : Secrets) (id : Text) (stored : Session) : Type 0 where
  pub host : header_text headers "host" ≡ some auth.authority
  pub origin : IsOwnOrigin auth headers mutation
  pub named : cookie_id auth headers ≡ some id
  pub known : get id s.sessions ≡ some stored
  pub fresh : now < stored.expires
  pub csrf :
      mutation ≡ true
      → (t : Text) × (header_text headers "x-remotedeck-csrf" ≡ some t)
        × (as_bytes t ≡ as_bytes stored.csrf)

current_session_ok :
    (auth : Auth) (headers : HeaderMap) (now : ℕ) (s : Secrets) (stored : Session)
    → current_session auth headers now s ≡ ok stored
    → (id : Text) × (cookie_id auth headers ≡ some id)
      × (get id s.sessions ≡ some stored)
      × (now < stored.expires)
current_session_ok auth headers now s stored e = elim (Option-cases (cookie_id auth headers)) [
  | inl missing ↦ absurd (ground arith)
  | inr (id, named) ↦ (id, named, ground arith, ground arith)
]

has_csrf_sound :
    (headers : HeaderMap) (session : Session)
    → has_csrf headers session ≡ true
    → (t : Text) × (header_text headers "x-remotedeck-csrf" ≡ some t)
      × (as_bytes t ≡ as_bytes session.csrf)
has_csrf_sound headers session e = elim (Option-cases (header_text headers "x-remotedeck-csrf")) [
  | inl missing ↦ absurd (ground arith)
  | inr (t, is) ↦ (t, is, ground (arith, constant_eq_iff t session.csrf))
]

pub require_ok :
    (auth : Auth) (headers : HeaderMap) (mutation : Bool) (now : ℕ) (s : Secrets)
    (session : Session)
    → (require auth headers mutation now s).1 ≡ ok session
    → (id : Text) × (stored : Session) × IsAuthorized auth headers mutation now s id stored
      × (session ≡ record stored { expires = now + session_ttl })
      × ((require auth headers mutation now s).0
          ≡ record s { sessions = insert id session s.sessions })
unfolding require
require_ok auth headers mutation now s session e =
    elim (Result-cases (
      check_host auth headers
      >> check_origin auth headers mutation
      >> current_session auth headers now s)) [
        | inr (error, failed) ↦ absurd (ground arith)
        | inl (stored, passed) ↦
            let (checked, current) = >>-ok _ _ stored passed in
            let (host, origin) = >>-ok _ _ tt checked in
            let (id, named, known, fresh) = current_session_ok auth headers now s stored current in
            (
              id,
              stored,
              record {
                host = check_host_ok auth headers host;
                origin = check_origin_ok auth headers mutation origin;
                named = named;
                known = known;
                fresh = fresh;
                csrf = λ m. has_csrf_sound headers stored (ground arith);
              },
              ground arith,
              ground arith,
            )
      ]

-- A refused request changes nothing.
pub require_err :
    (auth : Auth) (headers : HeaderMap) (mutation : Bool) (now : ℕ) (s : Secrets) (error : ApiError)
    → (require auth headers mutation now s).1 ≡ err error
    → (require auth headers mutation now s).0 ≡ s
unfolding require
require_err auth headers mutation now s error e = ground arith

check_host_complete :
    (auth : Auth) (headers : HeaderMap)
    → header_text headers "host" ≡ some auth.authority
    → check_host auth headers ≡ ok tt
unfolding check_host
check_host_complete auth headers e =
    rw e (ground (arith, text_eq_iff auth.authority auth.authority))

check_origin_complete :
    (auth : Auth) (headers : HeaderMap) (required : Bool)
    → IsOwnOrigin auth headers required
    → check_origin auth headers required ≡ ok tt
unfolding check_origin
check_origin_complete auth headers required (inl (o, is, inl own)) =
    ground (arith, text_eq_iff o auth.origin)
check_origin_complete auth headers required (inl (o, is, inr dev)) = ground (arith, text_eq_iff o o)
check_origin_complete auth headers required (inr (missing, free)) = ground arith

has_csrf_complete :
    (headers : HeaderMap) (session : Session)
    → ((t : Text) × (header_text headers "x-remotedeck-csrf" ≡ some t)
        × (as_bytes t ≡ as_bytes session.csrf))
    → has_csrf headers session ≡ true
has_csrf_complete headers session (t, is, same) = rw is ((constant_eq_iff t session.csrf).1 same)

-- `require` answers every authorized request, with its session renewed: one with this server's host
-- and an own origin, whose cookie names a stored session that has not expired, and which carries the
-- session's CSRF token when it is a mutation.
pub require_complete :
    (auth : Auth) (headers : HeaderMap) (mutation : Bool) (now : ℕ) (s : Secrets) (id : Text)
    (stored : Session)
    → IsAuthorized auth headers mutation now s id stored
    → (require auth headers mutation now s).1 ≡ ok (record stored { expires = now + session_ttl })
unfolding require
require_complete auth headers mutation now s id stored a =
    let host = check_host_complete auth headers a.host in
    let origin = check_origin_complete auth headers mutation a.origin in
    elim (Bool-cases mutation) [
      | inl m ↦ let csrf = has_csrf_complete headers stored (a.csrf m) in ground arith
      | inr m ↦ ground arith
    ]

-- The request has no `Origin` and no `Cookie` header, and carries the control token.
abbrev pub IsLauncher : Auth → HeaderMap → Type 0
IsLauncher auth headers =
    (header_text headers "host" ≡ some auth.authority)
    × (headers "origin" ≡ none)
    × (headers "cookie" ≡ none)
    × ((v : Text) × (token : Text) × (header_text headers "authorization" ≡ some v)
        × (strip_prefix (codes "Bearer ") v ≡ some token)
        × (as_bytes token ≡ as_bytes auth.control_token))

carries_token_sound :
    (auth : Auth) (headers : HeaderMap)
    → carries_token auth headers ≡ true
    → (v : Text) × (token : Text) × (header_text headers "authorization" ≡ some v)
      × (strip_prefix (codes "Bearer ") v ≡ some token)
      × (as_bytes token ≡ as_bytes auth.control_token)
carries_token_sound auth headers e = elim (Option-cases (header_text headers "authorization")) [
  | inl missing ↦ absurd (ground arith)
  | inr (v, is) ↦ elim (Option-cases (strip_prefix (codes "Bearer ") v)) [
    | inl other ↦ absurd (ground arith)
    | inr (token, bearer) ↦
        (v, token, is, bearer, ground (arith, constant_eq_iff token auth.control_token))
  ]
]

internal_sound :
    (auth : Auth) (headers : HeaderMap) → internal auth headers ≡ ok tt → IsLauncher auth headers
unfolding internal
internal_sound auth headers e =
    let (host, rest) = >>-ok (check_host auth headers) _ tt e in
    (
      check_host_ok auth headers host,
      ground arith,
      ground arith,
      carries_token_sound auth headers (ground arith),
    )

internal_complete :
    (auth : Auth) (headers : HeaderMap) → IsLauncher auth headers → internal auth headers ≡ ok tt
unfolding internal
internal_complete auth headers (host, origin, cookie, (v, token, is, bearer, same)) =
    let gate = check_host_complete auth headers host in
    let good = (constant_eq_iff token auth.control_token).1 same in ground arith

-- The launcher channel answers exactly the requests to the bound host with no `Origin` and no
-- `Cookie` header whose bearer token has the bytes of the control token.
pub internal_iff :
    (auth : Auth) (headers : HeaderMap) → (internal auth headers ≡ ok tt) ↔ IsLauncher auth headers
internal_iff auth headers = (internal_sound auth headers, internal_complete auth headers)
