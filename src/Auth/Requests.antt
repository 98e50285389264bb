-- ===== src/Auth/Requests.antt =====
-- The operations of auth.rs that answer a request.
use remote_deck.Base.{
  ℕ, ◌+◌, Bool, true, false, ◌&&◌, ◌||◌, not, Option, none, some, Text, codes, text_eq, get, insert,
  remove, length, is_some_and, option_filter, ltb, leb, if◌then◌else◌, Result, ok, err, ◌>>◌,
  fail_if, strip_prefix, text_eq,
}
use remote_deck.Auth.Defs.{
  Auth, ApiError, api_error, Session, Secrets, TerminalTicket, HeaderMap, header_text, contains_key,
  constant_eq, check_host, check_origin, live_sessions, live_terminals, session_cookie, cookie_id,
  session_ttl, ticket_ttl, max_sessions, max_tickets,
}

-- A session for a browser that has none.
fresh : Auth → ℕ → Text → Text → Secrets → Secrets × Result ApiError (Session × Text)
fresh auth now new_id new_csrf s =
    let session : Session = record { id = new_id; csrf = new_csrf; expires = now + session_ttl } in
    if leb max_sessions (length s.sessions)
    then (s, err (api_error 429 "session_limit" "Too many browser sessions."))
    else (
      record s { sessions = insert session.id session s.sessions },
      ok (session, session_cookie auth session),
    )

-- The part of `exchange` after the ticket was found good, on the sessions that are still live.
admit : Auth → ℕ → Text → Text → Secrets → Option Text → Secrets × Result ApiError (Session × Text)
unfolding fresh
admit auth now new_id new_csrf s (some id) = elim (get id s.sessions) [
  | none ↦ fresh auth now new_id new_csrf s
  | some existing ↦
      let session : Session = record existing { expires = now + session_ttl } in
      (
        record s { sessions = insert id session s.sessions },
        ok (session, session_cookie auth session),
      )
]
admit auth now new_id new_csrf s none = fresh auth now new_id new_csrf s

invalid_ticket : ApiError
invalid_ticket =
    api_error 401 "invalid_ticket"
      "The launch link expired or was already used. Open RemoteDeck again."

-- `exchange(headers, ticket)`: `new_id` and `new_csrf` are the tokens that a new session draws.
unfoldable pub exchange :
    Auth → HeaderMap → Text → ℕ → Text → Text → Secrets → Secrets × Result ApiError (Session × Text)
unfolding admit invalid_ticket
exchange auth headers ticket now new_id new_csrf s =
    elim (check_host auth headers >> check_origin auth headers true) [
      | err e ↦ (s, err e)
      | ok _ ↦
          let taken : Secrets = record s { launch = remove ticket s.launch } in
          if is_some_and (get ticket s.launch) (λ t. ltb now t.expires)
          then admit auth now new_id new_csrf
              (record taken { sessions = live_sessions now s.sessions }) (cookie_id auth headers)
          else (taken, err invalid_ticket)
    ]

-- The session that the request's cookie names, when it has not expired.
abbrev pub current_session : Auth → HeaderMap → ℕ → Secrets → Result ApiError Session
current_session auth headers now s = elim (cookie_id auth headers) [
  | none ↦ err (
      api_error 401 "session_required"
        "Open RemoteDeck from its shortcut to authorize this browser.")
  | some id ↦ elim (option_filter (λ t. ltb now t.expires) (get id s.sessions)) [
    | none ↦
        err (api_error 401 "session_expired" "The browser session expired. Open RemoteDeck again.")
    | some session ↦ ok session
  ]
]

abbrev pub has_csrf : HeaderMap → Session → Bool
has_csrf headers session =
    is_some_and (header_text headers "x-remotedeck-csrf") (λ csrf. constant_eq csrf session.csrf)

-- The session is renewed under the cookie's id, which is where it was found.
renewed : Auth → HeaderMap → ℕ → Secrets → Session → Secrets × Result ApiError Session
renewed auth headers now s session =
    let session' : Session = record session { expires = now + session_ttl } in
    elim (cookie_id auth headers) [
      | none ↦ (s, ok session')
      | some id ↦ (record s { sessions = insert id session' s.sessions }, ok session')
    ]

unfoldable pub require : Auth → HeaderMap → Bool → ℕ → Secrets → Secrets × Result ApiError Session
unfolding renewed
require auth headers mutation now s =
    elim (check_host auth headers
      >> check_origin auth headers mutation
      >> current_session auth headers now s) [
        | err e ↦ (s, err e)
        | ok session ↦
            if mutation && not (has_csrf headers session)
            then (
              s,
              err (
                  api_error 403 "invalid_csrf"
                    "The request is missing its session-bound CSRF token."),
            )
            else renewed auth headers now s session
      ]

unfoldable pub live : Text → ℕ → Secrets → Bool
live session now s = is_some_and (get session s.sessions) (λ t. ltb now t.expires)

unfoldable pub issue_terminal :
    Session → Text → ℕ → ℕ → Text → Secrets → Secrets × Result ApiError Text
issue_terminal browser session_id generation now ticket s =
    let terminals = live_terminals now s.terminals in
    if leb max_tickets (length terminals)
    then (
      record s { terminals = terminals },
      err (api_error 429 "ticket_limit" "Too many pending terminal attachments."),
    )
    else (
      record s {
        terminals =
            insert ticket
              (record {
                session_id = session_id;
                browser_id = browser.id;
                generation = generation;
                expires = now + ticket_ttl;
              })
              terminals;
      },
      ok ticket,
    )

-- The part of `claim_terminal` after the request was authorized, under a lock of its own.
claim : Text → ℕ → Secrets → Result ApiError Session → Secrets × Result ApiError TerminalTicket
claim ticket now s (err e) = (s, err e)
claim ticket now s (ok session) = (
  record s { terminals = remove ticket s.terminals },
  elim (option_filter (λ t. ltb now t.expires && text_eq t.browser_id session.id)
      (get ticket s.terminals)) [
        | none ↦ err (
            api_error 401 "invalid_terminal_ticket"
              "The terminal ticket expired or was already used.")
        | some t ↦ ok t
      ],
)

unfoldable pub claim_terminal :
    Auth → HeaderMap → Text → ℕ → Secrets → Secrets × Result ApiError TerminalTicket
unfolding claim
claim_terminal auth headers ticket now s = elim (check_origin auth headers true) [
  | err e ↦ (s, err e)
  | ok _ ↦ let (s', session) = require auth headers false now s in claim ticket now s' session
]

abbrev pub carries_token : Auth → HeaderMap → Bool
carries_token auth headers = is_some_and (header_text headers "authorization") (λ v.
    is_some_and (strip_prefix (codes "Bearer ") v) (λ token. constant_eq token auth.control_token))

unfoldable pub internal : Auth → HeaderMap → Result ApiError (Unit {0})
internal auth headers = do
  check_host auth headers
  fail_if (contains_key headers "origin" || contains_key headers "cookie")
      (api_error 403 "invalid_control_request" "Browser requests cannot use the launcher channel.")
  fail_if (not (carries_token auth headers))
      (api_error 401 "invalid_control_token" "Invalid launcher credential.")
