-- ===== src/Auth/Limits.antt =====
-- Runs of the operations of auth.rs: the limits on secrets, and tickets that work once.
use remote_deck.Base.{
  ℕ, ◌≤◌, Bool, false, List, [], ◌∷◌, arith, Text, get, length, length-insert-le, length-insert_old,
  length-remove-le, length-retain_values-le, Option-cases, Result-cases, inl, inr,
}
use remote_deck.Auth.Defs.{
  Auth, Session, Secrets, HeaderMap, cookie_id, max_sessions, max_tickets, live_sessions,
  launch_url, no_secrets,
}
use remote_deck.Auth.Requests.{exchange, require, issue_terminal, claim_terminal}
use remote_deck.Auth.Sessions.{require_ok, require_err}

-- A call of the module with the tokens that it draws.
pub data Call : Type 0 where
  launches : Text → Call
  exchanges : HeaderMap → Text → Text → Text → Call
  requires : HeaderMap → Bool → Call
  issues : Session → Text → ℕ → Text → Call
  claims : HeaderMap → Text → Call

-- The secrets after a call at a time.
unfoldable pub step : Auth → Secrets → ℕ × Call → Secrets
step auth s (now, launches ticket) = (launch_url auth now ticket s).0
step auth s (now, exchanges headers ticket new_id new_csrf) =
    (exchange auth headers ticket now new_id new_csrf s).0
step auth s (now, requires headers mutation) = (require auth headers mutation now s).0
step auth s (now, issues browser session_id generation ticket) =
    (issue_terminal browser session_id generation now ticket s).0
step auth s (now, claims headers ticket) = (claim_terminal auth headers ticket now s).0

unfoldable pub run : Auth → Secrets → List (ℕ × Call) → Secrets
unfolding step
run auth s [] = s
run auth s (c ∷ cs) = run auth (step auth s c) cs

pub record IsBounded (s : Secrets) : Type 0 where
  pub launch : length s.launch ≤ max_tickets
  pub sessions : length s.sessions ≤ max_sessions
  pub terminals : length s.terminals ≤ max_tickets

launch_url-IsBounded :
    (auth : Auth) (now : ℕ) (ticket : Text) (s : Secrets)
    → IsBounded s
    → IsBounded (launch_url auth now ticket s).0
unfolding launch_url
launch_url-IsBounded auth now ticket s b = grind (arith, length-insert-le, length-retain_values-le)

issue_terminal-IsBounded :
    (browser : Session) (session_id : Text) (generation now : ℕ) (ticket : Text) (s : Secrets)
    → IsBounded s
    → IsBounded (issue_terminal browser session_id generation now ticket s).0
unfolding issue_terminal
issue_terminal-IsBounded browser session_id generation now ticket s b =
    grind (arith, length-insert-le, length-retain_values-le)

exchange-IsBounded :
    (auth : Auth) (headers : HeaderMap) (ticket : Text) (now : ℕ) (new_id new_csrf : Text)
    (s : Secrets)
    → IsBounded s
    → IsBounded (exchange auth headers ticket now new_id new_csrf s).0
unfolding exchange
exchange-IsBounded auth headers ticket now new_id new_csrf s b =
    elim (Option-cases (cookie_id auth headers)) [
      | inl no_cookie ↦ grind (arith, length-insert-le, length-remove-le, length-retain_values-le)
      | inr (id, named) ↦ elim (Option-cases (get id (live_sessions now s.sessions))) [
        | inl unknown ↦ grind (arith, length-insert-le, length-remove-le, length-retain_values-le)
        | inr (existing, known) ↦
            grind (arith, length-insert_old, length-remove-le, length-retain_values-le)
      ]
    ]

require-IsBounded :
    (auth : Auth) (headers : HeaderMap) (mutation : Bool) (now : ℕ) (s : Secrets)
    → IsBounded s
    → IsBounded (require auth headers mutation now s).0
require-IsBounded auth headers mutation now s b =
    elim (Result-cases (require auth headers mutation now s).1) [
      | inr (error, refused) ↦ rw (require_err auth headers mutation now s error refused) b
      | inl (session, answered) ↦
          let (id, stored, authorized, renewed, after) =
            require_ok auth headers mutation now s session answered in
          rw after (record {
            launch = b.launch;
            sessions = omega (
              arith,
              b.sessions,
              length-insert_old id session s.sessions (rw (authorized.known)),
            );
            terminals = b.terminals;
          })
    ]

claim_terminal-IsBounded :
    (auth : Auth) (headers : HeaderMap) (ticket : Text) (now : ℕ) (s : Secrets)
    → IsBounded s
    → IsBounded (claim_terminal auth headers ticket now s).0
unfolding claim_terminal
claim_terminal-IsBounded auth headers ticket now s b =
    let r = require-IsBounded auth headers false now s b in
    ground (arith, length-remove-le ticket (require auth headers false now s).0.terminals)

step-IsBounded :
    (auth : Auth) (s : Secrets) (c : ℕ × Call) → IsBounded s → IsBounded (step auth s c)
unfolding step
step-IsBounded auth s (now, launches ticket) b = launch_url-IsBounded auth now ticket s b
step-IsBounded auth s (now, exchanges headers ticket new_id new_csrf) b =
    exchange-IsBounded auth headers ticket now new_id new_csrf s b
step-IsBounded auth s (now, requires headers mutation) b =
    require-IsBounded auth headers mutation now s b
step-IsBounded auth s (now, issues browser session_id generation ticket) b =
    issue_terminal-IsBounded browser session_id generation now ticket s b
step-IsBounded auth s (now, claims headers ticket) b =
    claim_terminal-IsBounded auth headers ticket now s b

run-IsBounded :
    (auth : Auth) (s : Secrets) (cs : List (ℕ × Call)) → IsBounded s → IsBounded (run auth s cs)
unfolding run
run-IsBounded auth s [] b = b
run-IsBounded auth s (c ∷ cs) b = run-IsBounded auth (step auth s c) cs (step-IsBounded auth s c b)

-- After any sequence of calls, at any times and from any requests, at most `max_tickets` launch
-- tickets, `max_sessions` sessions and `max_tickets` terminal tickets are held.
pub run_start-IsBounded : (auth : Auth) (cs : List (ℕ × Call)) → IsBounded (run auth no_secrets cs)
run_start-IsBounded auth cs = run-IsBounded auth no_secrets cs (omega arith)
