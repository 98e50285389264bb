-- ===== src/Auth/Tests.antt =====
-- Runs of the browser boundary, and its theorems at concrete requests.
use text.Mathlib.Text.{◌==◌ as str_eq}
use mathlib.Core.List.{zip}
use remote_deck.Base.{
  ℕ, ◌+◌, ◌*◌, ◌<◌, ◌≡◌, ◌↔◌, refl, true, false, Option, none, some, List, [], ◌∷◌, arith, Text,
  codes, get, map_operations, if◌then◌else◌, ok, is_ok, inl, trim, split_on, split_once,
  strip_prefix, as_bytes, byte_len,
}
use remote_deck.Auth.Defs.{
  Auth, Session, Secrets, HeaderMap, header_text, new, check_host, check_origin, cookie_id,
  launch_url, session_cookie, no_secrets, constant_eq, second, session_ttl, browser_origin,
  LaunchTicket, TerminalTicket, live_sessions,
}
use remote_deck.Auth.Requests.{exchange, require, issue_terminal, claim_terminal, internal, live}
use remote_deck.Auth.ConstantEq.{constant_eq_iff}
use remote_deck.Auth.Sessions.{
  IsAuthorized, IsOwnOrigin, IsLauncher, require_complete, internal_iff,
}
use remote_deck.Auth.Launch.{IsAdmitted, exchange_ok}
use remote_deck.Auth.Limits.{Call, launches, requires, run, IsBounded, run_start-IsBounded}
use remote_deck.Auth.Tickets.{exchange_burns, claim_terminal_ok}

boundary : Unit {0}
unfolding new check_host check_origin cookie_id launch_url session_cookie exchange require
    issue_terminal claim_terminal internal live constant_eq map_operations trim split_on split_once
    strip_prefix as_bytes byte_len zip run browser_origin
boundary = tt

abbrev server : Auth
server = record {
  authority = codes "127.0.0.1:4100";
  origin = codes "http://127.0.0.1:4100";
  cookie_name = codes "remotedeck_4100";
  dev_origin = none;
  control_token = codes "c0ffee";
}

new-server : new 4100 (codes "c0ffee") none ≡ server
unfolding boundary
new-server = refl

-- The headers of a page of this server, with a cookie.
abbrev page : Option Text → HeaderMap
page cookie name =
    if str_eq name "host"
    then some (some (codes "127.0.0.1:4100"))
    else if str_eq name "origin"
    then some (some (codes "http://127.0.0.1:4100"))
    else if str_eq name "x-remotedeck-csrf"
    then some (some (codes "csrf1"))
    else if str_eq name "cookie"
    then elim cookie [ none ↦ none | some c ↦ some (some c) ]
    else none

-- The headers of the launcher.
abbrev launcher : HeaderMap
launcher name =
    if str_eq name "host"
    then some (some (codes "127.0.0.1:4100"))
    else if str_eq name "authorization"
    then some (some (codes "Bearer c0ffee"))
    else none

abbrev session_one : Session
session_one = record { id = codes "id1"; csrf = codes "csrf1"; expires = 5 + session_ttl }

abbrev with_cookie : HeaderMap
with_cookie = page (some (codes "a=b; remotedeck_4100=id1"))

abbrev launched : Secrets
launched = (launch_url server 0 (codes "t1") no_secrets).0

abbrev opened : Secrets
opened = record { launch = []; sessions = (codes "id1", session_one) ∷ []; terminals = [] }

exchange_opens :
    exchange server (page none) (codes "t1") 5 (codes "id1") (codes "csrf1") launched
    ≡ (opened, ok (session_one, session_cookie server session_one))
unfolding boundary
exchange_opens = refl

cookie : cookie_id server with_cookie ≡ some (codes "id1")
unfolding boundary
cookie = refl

-- The theorems at these requests.
constant_eq_iff_example :
    (constant_eq (codes "c0ffee") (codes "c0ffef") ≡ true)
    ↔ (as_bytes (codes "c0ffee") ≡ as_bytes (codes "c0ffef"))
constant_eq_iff_example = constant_eq_iff (codes "c0ffee") (codes "c0ffef")

with_cookie-IsAuthorized : IsAuthorized server with_cookie true 9 opened (codes "id1") session_one
unfolding boundary
with_cookie-IsAuthorized = record {
  host = refl;
  origin = inl (codes "http://127.0.0.1:4100", refl, inl refl);
  named = refl;
  known = refl;
  fresh = omega arith;
  csrf = λ m. (codes "csrf1", refl, refl);
}

abbrev renewed_one : Session
renewed_one = record session_one { expires = 9 + session_ttl }

require_complete_example :
    (require server with_cookie true 9 opened).1
    ≡ ok (record session_one { expires = 9 + session_ttl })
require_complete_example =
    require_complete server with_cookie true 9 opened (codes "id1") session_one
      with_cookie-IsAuthorized

internal_iff_example : (internal server launcher ≡ ok tt) ↔ IsLauncher server launcher
internal_iff_example = internal_iff server launcher

exchange_ok_example :
    (header_text (page none) "host" ≡ some server.authority)
    × IsOwnOrigin server (page none) true
    × ((t : LaunchTicket) × (get (codes "t1") launched.launch ≡ some t) × (5 < t.expires))
    × (get
          (codes "t1")
          (exchange server
            (page none)
            (codes "t1")
            5
            (codes "id1")
            (codes "csrf1")
            launched).0.launch
        ≡ none)
    × (session_cookie server session_one ≡ session_cookie server session_one)
    × IsAdmitted server
        (page none)
        5
        (codes "id1")
        (codes "csrf1")
        (live_sessions 5 launched.sessions)
        (exchange server
          (page none)
          (codes "t1")
          5
          (codes "id1")
          (codes "csrf1")
          launched).0.sessions
        session_one
unfolding boundary
exchange_ok_example =
    exchange_ok server (page none) (codes "t1") 5 (codes "id1") (codes "csrf1") launched session_one
      (session_cookie server session_one) refl

abbrev later : List (ℕ × Call)
later = (8, requires with_cookie true) ∷ (9, launches (codes "t2")) ∷ []

exchange_burns_example :
    is_ok
      (exchange server (page none) (codes "t1") 10 (codes "id2") (codes "csrf2") (
        run server
          (exchange server (page none) (codes "t1") 5 (codes "id1") (codes "csrf1") launched).0
          later)).1
    ≡ false
unfolding boundary
exchange_burns_example =
    exchange_burns server (page none) (codes "t1") 5 (codes "id1") (codes "csrf1") launched later
      (page none) 10 (codes "id2") (codes "csrf2") refl refl

run_start-IsBounded_example : IsBounded (run server no_secrets later)
run_start-IsBounded_example = run_start-IsBounded server later

abbrev terminal_ticket : TerminalTicket
terminal_ticket = record {
  session_id = codes "pty";
  browser_id = codes "id1";
  generation = 3;
  expires = 6 + 30 * second;
}

abbrev issued : Secrets
issued = (issue_terminal session_one (codes "pty") 3 6 (codes "w1") opened).0

claim_terminal_ok_example :
    IsOwnOrigin server with_cookie true
    × ((id : Text) × (stored : Session) × IsAuthorized server with_cookie false 9 issued id stored
        × (terminal_ticket.browser_id ≡ stored.id))
    × (get (codes "w1") issued.terminals ≡ some terminal_ticket)
    × (9 < terminal_ticket.expires)
    × (get (codes "w1") (claim_terminal server with_cookie (codes "w1") 9 issued).0.terminals
        ≡ none)
unfolding boundary
claim_terminal_ok_example =
    claim_terminal_ok server with_cookie (codes "w1") 9 issued terminal_ticket refl
