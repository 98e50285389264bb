-- ===== src/Store/Consistent.antt =====
-- What `validate_persisted_state` of store.rs promises of a state, said without its loops.
use remote_deck.Base.{
  ℕ, ◌≤◌, ◌≡◌, refl, inl, inr, Bool, true, false, ◌||◌, not, Option, none, some, List, [], ◌∷◌,
  ◌++◌, Text, codes, In, All, All-In, any, starts_with, is_whitespace, is_control, trim, length,
  is_some_and, text_eq, text_eq_iff, eq_ignore_ascii_case_iff, to_ascii_lowercase, ltb, ◌==◌, sym,
  subst, Bool-cases, ok, >>-ok, fail_if, arith,
}
use remote_deck.Model.{
  HostProfile, TunnelProfile, CommandPreset, PersistedState, AppResult, state, validation,
}
use remote_deck.Store.Validate.{within, validate_ssh_atom, validate_host_draft, validate_advanced}
use remote_deck.Store.Apply.{has_host}
use remote_deck.Store.Persisted.{
  max_hosts, max_imported_source_hashes, max_tunnels, max_command_presets, host_as_draft,
  host_clash, tunnel_clash, command_clash, validate_hosts, validate_tunnels, validate_commands,
  validate_persisted_state,
}
use remote_deck.Store.Inversion.{fail_if-ok, as_state_error-ok}
use remote_deck.Store.Clash.{NoClash, same-value}

-- A word that can stand on ssh's command line: not an option, and no blank in it.
pub record IsSafeAtom (value : Text) : Type 0 where
  pub not_option : starts_with (codes "-") value ≡ false
  pub no_blank : any is_whitespace value ≡ false
  pub no_control : any is_control value ≡ false

pub record IsSoundHost (host : HostProfile) : Type 0 where
  pub hostname_safe : IsSafeAtom (trim host.hostname)
  pub username_safe : IsSafeAtom (trim host.username)
  pub port_set : 1 ≤ host.port
  pub timeout_low : 1 ≤ host.advanced.connect_timeout_seconds
  pub timeout_high : host.advanced.connect_timeout_seconds ≤ 300

-- Some stored host has this id.
abbrev pub IsHostId : List HostProfile → Text → Type 0
IsHostId hosts id = (host : HostProfile) × In host hosts × (host.id ≡ id)

pub record IsConsistent (s : PersistedState) : Type 0 where
  pub hosts_bounded : length s.hosts ≤ max_hosts
  pub tunnels_bounded : length s.tunnels ≤ max_tunnels
  pub commands_bounded : length s.command_presets ≤ max_command_presets
  pub sound : (host : HostProfile) → In host s.hosts → IsSoundHost host
  pub host_ids : (h k : HostProfile) → In h s.hosts → In k s.hosts → h.id ≡ k.id → h ≡ k
  pub aliases :
      (h k : HostProfile)
      → In h s.hosts
      → In k s.hosts
      → to_ascii_lowercase h.alias ≡ to_ascii_lowercase k.alias
      → h ≡ k
  pub tunnel_ids : (t u : TunnelProfile) → In t s.tunnels → In u s.tunnels → t.id ≡ u.id → t ≡ u
  pub tunnels_hosted : (t : TunnelProfile) → In t s.tunnels → IsHostId s.hosts t.host_id
  pub command_ids :
      (c d : CommandPreset) → In c s.command_presets → In d s.command_presets → c.id ≡ d.id → c ≡ d
  pub commands_hosted :
      (c : CommandPreset) (id : Text)
      → In c s.command_presets
      → c.host_id ≡ some id
      → IsHostId s.hosts id

validate_hosts-ok :
    (b hosts : List HostProfile)
    → validate_hosts b hosts ≡ ok tt
    → NoClash host_clash b hosts
      × All
          (λ h.
            (validate_host_draft (host_as_draft h) ≡ ok tt)
            × (validate_advanced h.advanced ≡ ok tt))
          hosts
unfolding validate_hosts
validate_hosts-ok b [] h = (tt, tt)
validate_hosts-ok b (x ∷ xs) h =
    let (d, h1) = >>-ok _ _ tt h in
    let (a, h2) = >>-ok _ _ tt h1 in
    let (c, h3) = >>-ok _ _ tt h2 in
    let (n, k) = validate_hosts-ok (b ++ x ∷ []) xs h3 in
    ((fail_if-ok _ state c, n), ((as_state_error-ok _ d, as_state_error-ok _ a), k))

has_host-In : (id : Text) (hosts : List HostProfile) → has_host id hosts ≡ true → IsHostId hosts id
has_host-In id [] h = cc
has_host-In id (x ∷ xs) h = elim (Bool-cases (text_eq x.id id)) [
  | inl e ↦ (x, inl refl, (text_eq_iff x.id id).0 e)
  | inr e ↦ let (host, m, k) = has_host-In id xs (ground arith) in (host, inr m, k)
]

not-false : (b : Bool) → not b ≡ false → b ≡ true
not-false b h = ground arith

validate_tunnels-ok :
    (hosts : List HostProfile) (b tunnels : List TunnelProfile)
    → validate_tunnels hosts b tunnels ≡ ok tt
    → NoClash tunnel_clash b tunnels × All (λ t. IsHostId hosts t.host_id) tunnels
unfolding validate_tunnels
validate_tunnels-ok hosts b [] h = (tt, tt)
validate_tunnels-ok hosts b (x ∷ xs) h =
    let (d, h1) = >>-ok _ _ tt h in
    let (a, h2) = >>-ok _ _ tt h1 in
    let (c, h3) = >>-ok _ _ tt h2 in
    let (n, k) = validate_tunnels-ok hosts (b ++ x ∷ []) xs h3 in
    let found = fail_if-ok _ state a in
    ((fail_if-ok _ state c, n), (has_host-In x.host_id hosts (not-false _ found), k))

IsScoped : List HostProfile → Option Text → Type 0
IsScoped hosts none = Unit
IsScoped hosts (some id) = IsHostId hosts id

IsScoped-scope :
    (hosts : List HostProfile) (scope : Option Text)
    → is_some_and scope (λ id. not (has_host id hosts)) ≡ false
    → IsScoped hosts scope
unfolding IsScoped
IsScoped-scope hosts none h = tt
IsScoped-scope hosts (some id) h = has_host-In id hosts (ground arith)

validate_commands-ok :
    (hosts : List HostProfile) (b commands : List CommandPreset)
    → validate_commands hosts b commands ≡ ok tt
    → NoClash command_clash b commands × All (λ c. IsScoped hosts c.host_id) commands
unfolding validate_commands
validate_commands-ok hosts b [] h = (tt, tt)
validate_commands-ok hosts b (x ∷ xs) h =
    let (d, h1) = >>-ok _ _ tt h in
    let (a, h2) = >>-ok _ _ tt h1 in
    let (c, h3) = >>-ok _ _ tt h2 in
    let (n, k) = validate_commands-ok hosts (b ++ x ∷ []) xs h3 in
    ((fail_if-ok _ state c, n), (IsScoped-scope hosts x.host_id (fail_if-ok _ state a), k))

validate_ssh_atom-ok : (value : Text) (n : ℕ) → validate_ssh_atom value n ≡ ok tt → IsSafeAtom value
unfolding validate_ssh_atom
validate_ssh_atom-ok value n h =
    let f = fail_if-ok _ validation h in
    record { not_option = ground arith; no_blank = ground arith; no_control = ground arith }

port-set :
    (port : ℕ) → ◌≡◌ {A = AppResult (Unit {0})} (fail_if (port == 0) validation) (ok tt) → 1 ≤ port
port-set port h = let e = fail_if-ok (port == 0) validation h in ground arith

within-ok :
    (low high n : ℕ)
    → ◌≡◌ {A = AppResult (Unit {0})} (fail_if (not (within low high n)) validation) (ok tt)
    → (low ≤ n) × (n ≤ high)
within-ok low high n h =
    let e = fail_if-ok (not (within low high n)) validation h in (ground arith, ground arith)

validate_host_draft-ok :
    (host : HostProfile)
    → validate_host_draft (host_as_draft host) ≡ ok tt
    → validate_advanced host.advanced ≡ ok tt
    → IsSoundHost host
unfolding validate_host_draft validate_advanced
validate_host_draft-ok host h a =
    let (_, h1) = >>-ok _ _ tt h in
    let (name, h2) = >>-ok _ _ tt h1 in
    let (user, h3) = >>-ok _ _ tt h2 in
    let (port, _) = >>-ok _ _ tt h3 in
    let (timeout, _) = >>-ok _ _ tt a in
    let seconds = within-ok 1 300 host.advanced.connect_timeout_seconds timeout in
    record {
      hostname_safe = validate_ssh_atom-ok (trim host.hostname) 512 name;
      username_safe = validate_ssh_atom-ok (trim host.username) 128 user;
      port_set = port-set host.port port;
      timeout_low = seconds.0;
      timeout_high = seconds.1;
    }

host_clash-id : (x y : HostProfile) → x.id ≡ y.id → host_clash x y ≡ true
host_clash-id x y e = let t = (text_eq_iff y.id x.id).1 (sym e) in ground arith

host_clash-alias :
    (x y : HostProfile)
    → to_ascii_lowercase x.alias ≡ to_ascii_lowercase y.alias
    → host_clash x y ≡ true
host_clash-alias x y e =
    let t = (eq_ignore_ascii_case_iff y.alias x.alias).1 (sym e) in ground arith

tunnel_clash-id : (x y : TunnelProfile) → x.id ≡ y.id → tunnel_clash x y ≡ true
tunnel_clash-id x y e = let t = (text_eq_iff y.id x.id).1 (sym e) in ground arith

command_clash-id : (x y : CommandPreset) → x.id ≡ y.id → command_clash x y ≡ true
command_clash-id x y e = let t = (text_eq_iff y.id x.id).1 (sym e) in ground arith

is_oversized : PersistedState → Bool
is_oversized s =
    ltb max_hosts (length s.hosts)
    || ltb max_tunnels (length s.tunnels)
    || ltb max_command_presets (length s.command_presets)
    || ltb max_imported_source_hashes (length s.imported_source_hashes)

within-bounds :
    (s : PersistedState)
    → is_oversized s ≡ false
    → (length s.hosts ≤ max_hosts)
      × (length s.tunnels ≤ max_tunnels)
      × (length s.command_presets ≤ max_command_presets)
unfolding is_oversized
within-bounds s h = (ground arith, ground arith, ground arith)

passed-checks :
    (s : PersistedState)
    → validate_persisted_state s ≡ ok tt
    → (is_oversized s ≡ false)
      × (validate_hosts [] s.hosts ≡ ok tt)
      × (validate_tunnels s.hosts [] s.tunnels ≡ ok tt)
      × (validate_commands s.hosts [] s.command_presets ≡ ok tt)
unfolding validate_persisted_state is_oversized
passed-checks s h =
    let (_, h1) = >>-ok _ _ tt h in
    let (bounds, h2) = >>-ok _ _ tt h1 in
    let (hosts, h3) = >>-ok _ _ tt h2 in
    let (tunnels, h4) = >>-ok _ _ tt h3 in
    let (commands, _) = >>-ok _ _ tt h4 in (fail_if-ok _ state bounds, hosts, tunnels, commands)

-- A state that passes the check is consistent.
pub validate_persisted_state-IsConsistent :
    (s : PersistedState) → validate_persisted_state s ≡ ok tt → IsConsistent s
unfolding IsScoped
validate_persisted_state-IsConsistent s h =
    let (bounds, hosts, tunnels, commands) = passed-checks s h in
    let (hb, tb, cb) = within-bounds s bounds in
    let (hn, hs) = validate_hosts-ok [] s.hosts hosts in
    let (tn, ts) = validate_tunnels-ok s.hosts [] s.tunnels tunnels in
    let (cn, cs) = validate_commands-ok s.hosts [] s.command_presets commands in
    record {
      hosts_bounded = hb;
      tunnels_bounded = tb;
      commands_bounded = cb;
      sound = λ host m. let (d, a) = All-In _ s.hosts host hs m in validate_host_draft-ok host d a;
      host_ids = same-value host_clash (λ x. x.id) s.hosts host_clash-id hn;
      aliases = same-value host_clash (λ x. to_ascii_lowercase x.alias) s.hosts host_clash-alias hn;
      tunnel_ids = same-value tunnel_clash (λ x. x.id) s.tunnels tunnel_clash-id tn;
      tunnels_hosted = λ t m. All-In _ s.tunnels t ts m;
      command_ids = same-value command_clash (λ x. x.id) s.command_presets command_clash-id cn;
      commands_hosted = λ c id m e.
          subst (IsScoped s.hosts) e
            (All-In (λ c. IsScoped s.hosts c.host_id) s.command_presets c cs m);
    }
