-- ===== src/Store/Proxies.antt =====
-- ProxyJump references in store.rs: how they resolve, and what a stored reference may be.
use remote_deck.Base.{
  ℕ, Bool, false, ◌&&◌, ◌||◌, not, Option, none, some, List, [], ◌∷◌, ◌++◌, Text, codes, text_eq,
  eq_ignore_ascii_case, any, find, retain, ◌==◌, if◌then◌else◌, is_empty, is_some, is_some_and,
  trim, decimal, contains_char, starts_with, ok, err, ◌>>=◌, ◌>>◌, fail_if, ok_or,
}
use remote_deck.Model.{validation, not_found, panic, AppResult, HostProfile}

abbrev pub find_host : Text → List HostProfile → Option HostProfile
find_host id hosts = find (λ host. text_eq host.id id) hosts

-- `str::ends_with` of a character.
ends_with_char : ℕ → Text → Bool
ends_with_char d [] = false
ends_with_char d (c ∷ []) = c == d
ends_with_char d (c ∷ s) = ends_with_char d s

-- An IPv6 address is put in brackets.
bracketed : Text → Text
unfolding ends_with_char
bracketed hostname =
    if contains_char b':' hostname
      && not (starts_with (codes "[") hostname && ends_with_char b']' hostname)
    then codes "[" ++ (hostname ++ codes "]")
    else hostname

unfoldable pub proxy_endpoint_with_port : HostProfile → Text
unfolding bracketed
proxy_endpoint_with_port host =
    host.username ++ (codes "@" ++ (bracketed host.hostname ++ (codes ":" ++ decimal host.port)))

unfoldable pub proxy_endpoint : HostProfile → Text
unfolding bracketed
proxy_endpoint host =
    if host.port == 22
    then host.username ++ (codes "@" ++ bracketed host.hostname)
    else host.username
      ++ (codes "@" ++ (bracketed host.hostname ++ (codes ":" ++ decimal host.port)))

abbrev pub has_endpoint : Text → HostProfile → Bool
has_endpoint reference host =
    text_eq (proxy_endpoint host) reference || text_eq (proxy_endpoint_with_port host) reference

-- The only match of an endpoint.
unfoldable pub only_match : List HostProfile → AppResult (Option HostProfile)
only_match [] = err validation
only_match (host ∷ []) = ok (some host)
only_match (host ∷ _) = err validation

-- The part of `resolve_proxy_reference` on a trimmed reference that is not empty: a host of that
-- id, or else the first of that alias, or else the only one of that endpoint.
unfoldable pub by_endpoint :
    List HostProfile → Text → Option HostProfile → AppResult (Option HostProfile)
unfolding only_match
by_endpoint hosts reference (some host) = ok (some host)
by_endpoint hosts reference none = only_match (retain (has_endpoint reference) hosts)

unfoldable pub by_alias :
    List HostProfile → Text → Option HostProfile → AppResult (Option HostProfile)
unfolding by_endpoint
by_alias hosts reference (some host) = ok (some host)
by_alias hosts reference none =
    by_endpoint hosts reference (find (λ host. eq_ignore_ascii_case host.alias reference) hosts)

unfoldable pub resolve_trimmed : List HostProfile → Text → AppResult (Option HostProfile)
unfolding by_alias
resolve_trimmed hosts reference = by_alias hosts reference (find_host reference hosts)

unfoldable pub resolve_proxy_reference :
    List HostProfile → Option Text → AppResult (Option HostProfile)
unfolding resolve_trimmed
resolve_proxy_reference hosts none = ok none
resolve_proxy_reference hosts (some reference) =
    if is_empty (trim reference) then ok none else resolve_trimmed hosts (trim reference)

-- The checks of `resolve_proxy_jump` on the host that the reference names.
unfoldable pub check_jump : HostProfile → Option HostProfile → AppResult (Option HostProfile)
check_jump host none = ok none
check_jump host (some jump) = do
  fail_if (text_eq jump.id host.id) validation
  fail_if (is_some jump.proxy_jump) validation
  ok (some jump)

unfoldable pub resolve_proxy_jump : List HostProfile → HostProfile → AppResult (Option HostProfile)
unfolding check_jump
resolve_proxy_jump hosts host = do
  jump ← resolve_proxy_reference hosts host.proxy_jump
  check_jump host jump

unfoldable pub proxy_reference_matches_host : Option Text → HostProfile → Bool
proxy_reference_matches_host reference host = is_some_and reference (λ r.
    text_eq (trim r) host.id
    || eq_ignore_ascii_case (trim r) host.alias
    || text_eq (trim r) (proxy_endpoint host)
    || text_eq (trim r) (proxy_endpoint_with_port host))

-- `hosts[index].proxy_jump = Some(jump_id)` at the first host of an id.
unfoldable pub set_proxy_jump : Text → Text → List HostProfile → List HostProfile
set_proxy_jump id jump_id [] = []
set_proxy_jump id jump_id (host ∷ hosts) =
    if text_eq host.id id
    then record host { proxy_jump = some jump_id } ∷ hosts
    else host ∷ set_proxy_jump id jump_id hosts

unfoldable pub normalize_reference : List HostProfile → Text → Text → AppResult (List HostProfile)
normalize_reference hosts host_id reference = do
  resolved ← resolve_proxy_reference hosts (some reference)
  named ← ok_or resolved validation
  fail_if (text_eq named.id host_id) validation
  jump ← ok_or (find_host named.id hosts) panic
  fail_if (is_some jump.proxy_jump) validation
  ok (set_proxy_jump host_id named.id hosts)

unfoldable pub normalize_proxy_jump_for : List HostProfile → Text → AppResult (List HostProfile)
normalize_proxy_jump_for hosts host_id = do
  host ← ok_or (find_host host_id hosts) not_found
  elim host.proxy_jump [
    | none ↦ ok hosts
    | some reference ↦ normalize_reference hosts host_id reference
  ]

unfoldable pub validate_proxy_jump_role : List HostProfile → Text → AppResult (Unit {0})
validate_proxy_jump_role hosts host_id = do
  host ← ok_or (find_host host_id hosts) not_found
  jump ← resolve_proxy_jump hosts host
  fail_if
      (is_some host.proxy_jump
        && any
            (λ dependent.
              not (text_eq dependent.id host.id)
              && proxy_reference_matches_host dependent.proxy_jump host)
            hosts)
      validation

unfoldable pub validate_host_deletion_state : List HostProfile → Text → AppResult (Unit {0})
validate_host_deletion_state hosts host_id = do
  removed ← ok_or (find_host host_id hosts) not_found
  fail_if
      (any
        (λ host.
          not (text_eq host.id host_id) && proxy_reference_matches_host host.proxy_jump removed)
        hosts)
      validation
