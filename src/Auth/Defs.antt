-- ===== src/Auth/Defs.antt =====
-- The state and the operations of auth.rs.
use Prim.Native.Nat.{bit_or, bit_xor}
use Prim.Native.String.{String}
use mathlib.Core.List.{zip, foldl}
use remote_deck.Base.{
  ℕ, ◌+◌, ◌*◌, Bool, false, ◌||◌, not, Option, none, some, List, [], ◌∷◌, ◌++◌, Text, codes,
  text_eq, decimal, Map, insert, retain_values, length, is_some, is_some_and, unwrap_or, ltb, leb,
  ◌==◌, if◌then◌else◌, Result, ok, err, fail_if, trim, split_on, split_once, as_bytes, byte_len,
}

abbrev pub second : ℕ
second = 1000000000

abbrev pub ticket_ttl : ℕ
ticket_ttl = 30 * second

abbrev pub session_ttl : ℕ
session_ttl = 24 * 60 * 60 * second

abbrev pub max_sessions : ℕ
max_sessions = 64

abbrev pub max_tickets : ℕ
max_tickets = 128

-- The status is the HTTP code.
pub record ApiError : Type 0 where
  pub status : ℕ
  pub code : String
  pub message : String

abbrev pub api_error : ℕ → String → String → ApiError
api_error status code message = record { status = status; code = code; message = message }

pub record Session : Type 0 where
  pub id : Text
  pub csrf : Text
  pub expires : ℕ

pub record LaunchTicket : Type 0 where
  pub expires : ℕ

pub record TerminalTicket : Type 0 where
  pub session_id : Text
  pub browser_id : Text
  pub generation : ℕ
  pub expires : ℕ

pub record Secrets : Type 0 where
  pub launch : Map LaunchTicket
  pub sessions : Map Session
  pub terminals : Map TerminalTicket

pub record Auth : Type 0 where
  pub authority : Text
  pub origin : Text
  pub cookie_name : Text
  pub dev_origin : Option Text
  pub control_token : Text

-- `none` is a missing header, `some none` one whose value is not visible ASCII (`to_str` fails).
abbrev pub HeaderMap : Type 0
HeaderMap = String → Option (Option Text)

-- `headers.get(name).and_then(|h| h.to_str().ok())`.
abbrev pub header_text : HeaderMap → String → Option Text
header_text headers name = unwrap_or (headers name) none

abbrev pub contains_key : HeaderMap → String → Bool
contains_key headers name = is_some (headers name)

unfoldable pub constant_eq : Text → Text → Bool
unfolding byte_len
constant_eq left right =
    if not (byte_len left == byte_len right)
    then false
    else foldl (λ acc pair. bit_or acc (bit_xor pair.0 pair.1)) 0
        (zip (as_bytes left) (as_bytes right))
      == 0

unfoldable pub new : ℕ → Text → Option Text → Auth
unfolding decimal
new port control_token dev_origin = record {
  authority = codes "127.0.0.1:" ++ decimal port;
  origin = codes "http://127.0.0.1:" ++ decimal port;
  cookie_name = codes "remotedeck_" ++ decimal port;
  dev_origin = dev_origin;
  control_token = control_token;
}

abbrev pub no_secrets : Secrets
no_secrets = record { launch = []; sessions = []; terminals = [] }

abbrev pub text_option_eq : Option Text → Text → Bool
text_option_eq o s = is_some_and o (λ t. text_eq t s)

unfoldable pub browser_origin : Auth → Text
browser_origin auth = unwrap_or auth.dev_origin auth.origin

unfoldable pub check_host : Auth → HeaderMap → Result ApiError (Unit {0})
check_host auth headers =
    fail_if (not (text_option_eq (header_text headers "host") auth.authority))
      (api_error 403 "invalid_host" "Only the bound loopback host is accepted.")

invalid_origin : ApiError
invalid_origin = api_error 403 "invalid_origin" "This request did not originate from RemoteDeck."

unfoldable pub check_origin : Auth → HeaderMap → Bool → Result ApiError (Unit {0})
unfolding invalid_origin
check_origin auth headers required = elim (header_text headers "origin") [
  | some origin ↦
      if text_eq origin auth.origin || text_option_eq auth.dev_origin origin
      then ok tt
      else err invalid_origin
  | none ↦ if not required then ok tt else err invalid_origin
]

-- The tickets that are still good.
abbrev pub live_tickets : ℕ → Map LaunchTicket → Map LaunchTicket
live_tickets now m = retain_values (λ item. ltb now item.expires) m

abbrev pub live_sessions : ℕ → Map Session → Map Session
live_sessions now m = retain_values (λ item. ltb now item.expires) m

abbrev pub live_terminals : ℕ → Map TerminalTicket → Map TerminalTicket
live_terminals now m = retain_values (λ item. ltb now item.expires) m

unfoldable pub launch_url : Auth → ℕ → Text → Secrets → Secrets × Result ApiError Text
launch_url auth now ticket s =
    let launch = live_tickets now s.launch in
    if leb max_tickets (length launch)
    then (
      record s { launch = launch },
      err (api_error 429 "ticket_limit" "Too many pending browser launches."),
    )
    else (
      record s { launch = insert ticket (record { expires = now + ticket_ttl }) launch },
      ok (unwrap_or auth.dev_origin auth.origin ++ (codes "/#ticket=" ++ ticket)),
    )

unfoldable pub session_cookie : Auth → Session → Text
session_cookie auth session =
    auth.cookie_name ++ (codes "=" ++ (session.id ++ codes "; HttpOnly; SameSite=Strict; Path=/"))

-- The value of the first cookie of this server's name.
find_cookie : Text → List Text → Option Text
find_cookie name [] = none
find_cookie name (part ∷ parts) = elim (split_once b'=' (trim part)) [
  | none ↦ find_cookie name parts
  | some (key, value) ↦ if text_eq key name then some value else find_cookie name parts
]

unfoldable pub cookie_id : Auth → HeaderMap → Option Text
unfolding find_cookie
cookie_id auth headers = elim (header_text headers "cookie") [
  | none ↦ none
  | some cookies ↦ find_cookie auth.cookie_name (split_on (λ c. c == b';') cookies)
]
