-- ===== src/Auth/Tickets.antt =====
-- Tickets of auth.rs work once: across any later calls, and for terminals only in their browser.
use remote_deck.Base.{
  ℕ, ◌+◌, ◌<◌, ◌≡◌, Bool, true, false, ◌&&◌, none, some, List, [], ◌∷◌, arith, Text, any, text_eq,
  text_eq_iff, Map, get, get-insert, get-remove, get-remove_self, get-retain_values-none, ltb,
  is_ok, ok, ◌>>◌, Result-cases, inl, inr, option_filter,
}
use remote_deck.Auth.Defs.{
  Auth, Session, Secrets, TerminalTicket, HeaderMap, check_host, check_origin, live_tickets,
  launch_url, ticket_ttl,
}
use remote_deck.Auth.Requests.{exchange, require, issue_terminal, claim_terminal}
use remote_deck.Auth.Sessions.{IsAuthorized, IsOwnOrigin, check_origin_ok, require_ok}
use remote_deck.Auth.Launch.{exchange_without, exchange_takes}
use remote_deck.Auth.Limits.{Call, launches, exchanges, requires, issues, claims, step, run}

-- The call draws this token for a launch ticket.
abbrev pub launches_with : Text → ℕ × Call → Bool
launches_with ticket (now, launches t) = text_eq t ticket
launches_with ticket (now, _) = false

launch_url_spent :
    (auth : Auth) (now : ℕ) (t ticket : Text) (s : Secrets)
    → text_eq t ticket ≡ false
    → get ticket s.launch ≡ none
    → get ticket (launch_url auth now t s).0.launch ≡ none
unfolding launch_url
launch_url_spent auth now t ticket s other spent = ground (
  arith,
  get-insert ticket t (record { expires = now + ticket_ttl }) (live_tickets now s.launch),
  get-retain_values-none (λ item. ltb now item.expires) ticket s.launch spent,
)

exchange_spent :
    (auth : Auth) (headers : HeaderMap) (t : Text) (now : ℕ) (new_id new_csrf ticket : Text)
    (s : Secrets)
    → get ticket s.launch ≡ none
    → get ticket (exchange auth headers t now new_id new_csrf s).0.launch ≡ none
unfolding exchange
exchange_spent auth headers t now new_id new_csrf ticket s spent =
    ground (arith, get-remove ticket t s.launch)

require_launch :
    (auth : Auth) (headers : HeaderMap) (mutation : Bool) (now : ℕ) (s : Secrets)
    → ((require auth headers mutation now s).0.launch ≡ s.launch)
      × ((require auth headers mutation now s).0.terminals ≡ s.terminals)
unfolding require
require_launch auth headers mutation now s = (ground arith, ground arith)

claim_launch :
    (auth : Auth) (headers : HeaderMap) (t : Text) (now : ℕ) (s : Secrets)
    → (claim_terminal auth headers t now s).0.launch ≡ s.launch
unfolding claim_terminal
claim_launch auth headers t now s = ground (arith, require_launch auth headers false now s)

issue_launch :
    (browser : Session) (session_id : Text) (generation now : ℕ) (t : Text) (s : Secrets)
    → (issue_terminal browser session_id generation now t s).0.launch ≡ s.launch
unfolding issue_terminal
issue_launch browser session_id generation now t s = ground arith

step_spent :
    (auth : Auth) (ticket : Text) (s : Secrets) (c : ℕ × Call)
    → launches_with ticket c ≡ false
    → get ticket s.launch ≡ none
    → get ticket (step auth s c).launch ≡ none
unfolding step
step_spent auth ticket s (now, launches t) other spent =
    launch_url_spent auth now t ticket s other spent
step_spent auth ticket s (now, exchanges headers t new_id new_csrf) other spent =
    exchange_spent auth headers t now new_id new_csrf ticket s spent
step_spent auth ticket s (now, requires headers mutation) other spent =
    rw ((require_launch auth headers mutation now s).0) spent
step_spent auth ticket s (now, issues browser session_id generation t) other spent =
    rw (issue_launch browser session_id generation now t s) spent
step_spent auth ticket s (now, claims headers t) other spent =
    rw (claim_launch auth headers t now s) spent

run_spent :
    (auth : Auth) (ticket : Text) (s : Secrets) (cs : List (ℕ × Call))
    → any (launches_with ticket) cs ≡ false
    → get ticket s.launch ≡ none
    → get ticket (run auth s cs).launch ≡ none
unfolding run
run_spent auth ticket s [] other spent = spent
run_spent auth ticket s (c ∷ cs) other spent =
    run_spent auth ticket (step auth s c) cs (ground arith)
      (step_spent auth ticket s c (ground arith) spent)

-- An exchange that passes the checks of host and origin uses its ticket up, whatever it answers:
-- after any further calls that do not draw the same token again, no exchange of that ticket, from
-- any browser at any time, gets a session.
pub exchange_burns :
    (auth : Auth) (headers : HeaderMap) (ticket : Text) (now : ℕ) (new_id new_csrf : Text)
    (s : Secrets) (cs : List (ℕ × Call)) (headers' : HeaderMap) (now' : ℕ) (id' csrf' : Text)
    → (check_host auth headers >> check_origin auth headers true) ≡ ok tt
    → any (launches_with ticket) cs ≡ false
    → is_ok
        (exchange auth headers' ticket now' id' csrf'
          (run auth (exchange auth headers ticket now new_id new_csrf s).0 cs)).1
      ≡ false
exchange_burns auth headers ticket now new_id new_csrf s cs headers' now' id' csrf' passed other =
    exchange_without auth headers' ticket now' id' csrf' _ (
      run_spent auth ticket _ cs other
        (exchange_takes auth headers ticket now new_id new_csrf s passed))

claimed :
    (ticket : Text) (now : ℕ) (session : Session) (t : TerminalTicket) (m : Map TerminalTicket)
    → option_filter (λ t. ltb now t.expires && text_eq t.browser_id session.id) (get ticket m)
      ≡ some t
    → (get ticket m ≡ some t) × (now < t.expires) × (t.browser_id ≡ session.id)
claimed ticket now session t m e = ground (arith, text_eq_iff t.browser_id session.id)

-- A terminal ticket is given out only to a request with an own origin in the session that the ticket
-- was issued for, while neither has expired, and it is then gone.
pub claim_terminal_ok :
    (auth : Auth) (headers : HeaderMap) (ticket : Text) (now : ℕ) (s : Secrets) (t : TerminalTicket)
    → (claim_terminal auth headers ticket now s).1 ≡ ok t
    → IsOwnOrigin auth headers true
      × ((id : Text) × (stored : Session) × IsAuthorized auth headers false now s id stored
          × (t.browser_id ≡ stored.id))
      × (get ticket s.terminals ≡ some t)
      × (now < t.expires)
      × (get ticket (claim_terminal auth headers ticket now s).0.terminals ≡ none)
unfolding claim_terminal
claim_terminal_ok auth headers ticket now s t e =
    elim (Result-cases (check_origin auth headers true)) [
      | inr (error, refused) ↦ absurd (ground arith)
      | inl (_, passed) ↦ elim (Result-cases (require auth headers false now s).1) [
        | inr (error, refused) ↦ absurd (ground arith)
        | inl (session, answered) ↦
            let (id, stored, authorized, renewed, after) =
              require_ok auth headers false now s session answered in
            let same = (require_launch auth headers false now s).1 in
            let (held, good, mine) =
              claimed ticket now session t (require auth headers false now s).0.terminals
                (ground arith) in
            (
              check_origin_ok auth headers true passed,
              (id, stored, authorized, ground arith),
              ground arith,
              good,
              ground (arith, get-remove_self ticket (require auth headers false now s).0.terminals),
            )
      ]
    ]
