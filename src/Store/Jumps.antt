-- ===== src/Store/Jumps.antt =====
-- The proxies of saved hosts in store.rs: at most one hop.
use remote_deck.Base.{
  ℕ, ◌≡◌, ◌≢◌, refl, sym, ◌∙◌, subst, inl, inr, Bool, true, false, Option, none, some, List, [],
  ◌∷◌, Text, In, find, retain, text_eq, text_eq_iff, is_some, is_empty, trim, Bool-cases, ok, err,
  ◌>>=◌, >>-ok, >>=-ok, fail_if, ok_or, ok-injective, if◌then◌else◌, arith,
}
use remote_deck.Model.{
  AppResult, panic, validation, not_found, state, HostProfile, HostDraft, PersistedState,
}
use remote_deck.Store.Proxies.{
  find_host, only_match, has_endpoint, by_endpoint, by_alias, resolve_trimmed,
  resolve_proxy_reference, check_jump, resolve_proxy_jump, proxy_reference_matches_host,
  normalize_proxy_jump_for, validate_proxy_jump_role,
}
use remote_deck.Store.Apply.{apply_host_draft, apply_host_update, redirect_renamed}
use remote_deck.Store.Repository.{AppRepository, is_deleting, preview_host, save_host, persisted}
use remote_deck.Store.Inversion.{
  fail_if-ok, ok_or-ok, retain-In, commit-ok, persisted-ok, any-none, and-false, equal-not,
}

-- What a resolved reference is: none, or a host of the list.
abbrev IsListed : List HostProfile → Option HostProfile → Type 0
IsListed hosts none = Unit
IsListed hosts (some host) = In host hosts

find-IsListed : (p : HostProfile → Bool) (hosts : List HostProfile) → IsListed hosts (find p hosts)
find-IsListed p [] = tt
find-IsListed p (h ∷ hosts) = later (p h) (find p hosts) (find-IsListed p hosts)
  where
    later :
        (b : Bool) (o : Option HostProfile)
        → IsListed hosts o
        → IsListed (h ∷ hosts) (if b then some h else o)
    later true o m = inl refl
    later false none m = tt
    later false (some k) m = inr m

-- The same of a result, when it is one.
abbrev GivesListed : List HostProfile → AppResult (Option HostProfile) → Type 0
GivesListed hosts (ok o) = IsListed hosts o
GivesListed hosts (err e) = Unit

only_match-GivesListed :
    (hosts matches : List HostProfile)
    → ((h : HostProfile) → In h matches → In h hosts)
    → GivesListed hosts (only_match matches)
unfolding only_match
only_match-GivesListed hosts [] k = tt
only_match-GivesListed hosts (h ∷ []) k = k h (inl refl)
only_match-GivesListed hosts (h ∷ j ∷ matches) k = tt

by_endpoint-GivesListed :
    (hosts : List HostProfile) (r : Text) (o : Option HostProfile)
    → IsListed hosts o
    → GivesListed hosts (by_endpoint hosts r o)
unfolding by_endpoint
by_endpoint-GivesListed hosts r none m =
    only_match-GivesListed hosts (retain (has_endpoint r) hosts)
      (λ h k. (retain-In (has_endpoint r) h hosts k).0)
by_endpoint-GivesListed hosts r (some h) m = m

by_alias-GivesListed :
    (hosts : List HostProfile) (r : Text) (o : Option HostProfile)
    → IsListed hosts o
    → GivesListed hosts (by_alias hosts r o)
unfolding by_alias
by_alias-GivesListed hosts r none m = by_endpoint-GivesListed hosts r _ (find-IsListed _ hosts)
by_alias-GivesListed hosts r (some h) m = m

resolve-GivesListed :
    (hosts : List HostProfile) (reference : Option Text)
    → GivesListed hosts (resolve_proxy_reference hosts reference)
unfolding resolve_proxy_reference resolve_trimmed
resolve-GivesListed hosts none = tt
resolve-GivesListed hosts (some r) = elim (Bool-cases (is_empty (trim r))) [
  | inl e ↦ rw e tt
  | inr e ↦ rw e (by_alias-GivesListed hosts (trim r) _ (find-IsListed _ hosts))
]

-- A jump host of a host: another host of the list, reached directly.
abbrev pub IsJump : List HostProfile → HostProfile → Option HostProfile → Type 0
IsJump hosts host none = Unit
IsJump hosts host (some jump) = In jump hosts × (jump.id ≢ host.id) × (jump.proxy_jump ≡ none)

-- A host that is reached over one jump at most: its reference resolves, and when it has one, no
-- other host jumps through it.
abbrev pub IsOneHop : List HostProfile → HostProfile → Type 0
IsOneHop hosts host =
    ((jump : Option HostProfile) × (resolve_proxy_jump hosts host ≡ ok jump)
      × IsJump hosts host jump)
    × (is_some host.proxy_jump ≡ true
        → (other : HostProfile) → In other hosts
        → other.id ≢ host.id
        → proxy_reference_matches_host other.proxy_jump host ≡ false)

some-injective : {A : Type 0} {x y : A} → some x ≡ some y → x ≡ y
some-injective h = cc

no-reference : (o : Option Text) → is_some o ≡ false → o ≡ none
no-reference none h = refl
no-reference (some a) h = cc

text-differs : (a b : Text) → text_eq a b ≡ false → a ≢ b
text-differs a b h e = let t = (text_eq_iff a b).1 e in absurd cc

check_jump-IsJump :
    (hosts : List HostProfile) (host : HostProfile) (resolved jump : Option HostProfile)
    → IsListed hosts resolved
    → check_jump host resolved ≡ ok jump
    → IsJump hosts host jump
unfolding check_jump
check_jump-IsJump hosts host none jump m h = subst (IsJump hosts host) (ok-injective h) tt
check_jump-IsJump hosts host (some found) jump m h =
    let (itself, h1) = >>-ok (fail_if (text_eq found.id host.id) validation) _ jump h in
    let (nested, h2) = >>-ok (fail_if (is_some found.proxy_jump) validation) _ jump h1 in
    subst (IsJump hosts host) (ok-injective h2) (
      m,
      text-differs found.id host.id (fail_if-ok _ validation itself),
      no-reference found.proxy_jump (fail_if-ok _ validation nested),
    )

resolve_proxy_jump-IsJump :
    (hosts : List HostProfile) (host : HostProfile) (jump : Option HostProfile)
    → resolve_proxy_jump hosts host ≡ ok jump
    → IsJump hosts host jump
unfolding resolve_proxy_jump
resolve_proxy_jump-IsJump hosts host jump h =
    let (resolved, e, c) = >>=-ok (resolve_proxy_reference hosts host.proxy_jump) _ jump h in
    check_jump-IsJump hosts host resolved jump
      (subst (GivesListed hosts) e (resolve-GivesListed hosts host.proxy_jump)) c

validate_proxy_jump_role-IsOneHop :
    (hosts : List HostProfile) (id : Text) (host : HostProfile)
    → find_host id hosts ≡ some host
    → validate_proxy_jump_role hosts id ≡ ok tt
    → IsOneHop hosts host
unfolding validate_proxy_jump_role
validate_proxy_jump_role-IsOneHop hosts id host f v =
    let (named, n, v1) = >>=-ok (ok_or (find_host id hosts) not_found) _ tt v in
    let same : named ≡ host =
      some-injective (sym (ok_or-ok (find_host id hosts) not_found named n) ∙ f) in
    let (jump, j, v2) = >>=-ok (resolve_proxy_jump hosts named) _ tt v1 in
    subst (IsOneHop hosts) same (
      (jump, j, resolve_proxy_jump-IsJump hosts named jump j),
      λ has other m d.
          and-false _ _ (any-none _ other hosts (and-false _ _ (fail_if-ok _ validation v2) has) m)
            (equal-not other.id named.id d),
    )

-- A host that was just saved: it stands in the list under its id, and it is one hop away.
abbrev pub IsSettledHost : PersistedState × HostProfile → Type 0
IsSettledHost made = (find_host made.1.id made.0.hosts ≡ some made.1) × IsOneHop made.0.hosts made.1

find_host-id :
    (id : Text) (hosts : List HostProfile) (host : HostProfile)
    → find_host id hosts ≡ some host
    → host.id ≡ id
find_host-id id [] host h = cc
find_host-id id (x ∷ hosts) host h = ground (arith, text_eq_iff x.id id, find_host-id id hosts host)

apply_host_update-IsSettledHost :
    (s : PersistedState) (draft : HostDraft) (now : ℕ) (new_id : Text)
    (made : PersistedState × HostProfile)
    → apply_host_update s draft now new_id ≡ ok made
    → IsSettledHost made
unfolding apply_host_update
apply_host_update-IsSettledHost s draft now new_id made h =
    let (applied, _, h1) = >>=-ok (apply_host_draft s draft now new_id) _ made h in
    let (hosts, _, h2) =
      >>=-ok (normalize_proxy_jump_for (redirect_renamed _ applied.1 applied.0.hosts) applied.1.id)
        _ made h1 in
    let (role, h3) = >>-ok (validate_proxy_jump_role hosts applied.1.id) _ made h2 in
    let (stored, f, h4) = >>=-ok (ok_or (find_host applied.1.id hosts) panic) _ made h3 in
    let found = ok_or-ok (find_host applied.1.id hosts) panic stored f in
    subst IsSettledHost (ok-injective h4) (
      subst (λ id. find_host id hosts ≡ some stored)
          (sym (find_host-id applied.1.id hosts stored found)) found,
      validate_proxy_jump_role-IsOneHop hosts applied.1.id stored found role,
    )

module _ (disk : PersistedState → AppResult (Unit {0})) where
  -- A host that was saved stands in the stored list under its id, and ssh reaches it over one jump
  -- at most: its ProxyJump resolves, to another stored host that has no ProxyJump itself and is not
  -- being deleted; and when it has one, no other stored host jumps through it.
  pub save_host-IsOneHop :
      (draft : HostDraft) (now : ℕ) (new_id : Text) (repo : AppRepository) (h : HostProfile)
      → (save_host disk draft now new_id repo).1 ≡ ok h
      → (find_host h.id (save_host disk draft now new_id repo).0.stored.hosts ≡ some h)
        × IsOneHop (save_host disk draft now new_id repo).0.stored.hosts h
        × ((jump : Option HostProfile) × (resolve_proxy_jump
                (save_host disk draft now new_id repo).0.stored.hosts
                h
              ≡ ok jump)
            × (is_deleting repo jump ≡ false))
  unfolding save_host preview_host
  save_host-IsOneHop draft now new_id repo h r =
      let (made, _) =
        commit-ok disk repo (preview_host repo draft now new_id >>= persisted disk) h r in
      let (preview, p, w) = >>=-ok (preview_host repo draft now new_id) (persisted disk) _ made in
      let same = persisted-ok disk preview _ w in
      let (_, p1) = >>-ok _ _ preview p in
      let (applied, a, p2) = >>=-ok (apply_host_update repo.stored draft now new_id) _ preview p1 in
      let (jump, j, p3) = >>=-ok (resolve_proxy_jump applied.0.hosts applied.1) _ preview p2 in
      let (d, p4) = >>-ok _ _ preview p3 in
      let kept = ok-injective p4 ∙ same in
      let (f, hop) = apply_host_update-IsSettledHost repo.stored draft now new_id applied a in
      subst
        (λ m.
          (find_host m.1.id m.0.hosts ≡ some m.1)
          × IsOneHop m.0.hosts m.1
          × ((jump : Option HostProfile) × (resolve_proxy_jump m.0.hosts m.1 ≡ ok jump)
              × (is_deleting repo jump ≡ false)))
        kept (f, hop, (jump, j, fail_if-ok _ state d))
