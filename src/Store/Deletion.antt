-- ===== src/Store/Deletion.antt =====
-- The deletion of a host in store.rs: what `finish_host_deletion` removes, what it keeps, and what a
-- deletion that has begun holds back.
use remote_deck.Base.{
  ◌≡◌, ◌≢◌, refl, inl, inr, Bool, true, false, not, Option, none, some, List, [], ◌∷◌, Text, In,
  text_eq, text_eq_iff, is_some_and, Bool-cases, ok, err, >>-ok, >>=-ok, ok_or, arith, ap, sym, ◌∙◌,
  subst,
}
use remote_deck.Model.{
  AppResult, state, not_found, validation, HostProfile, TunnelProfile, CommandPreset,
  PersistedState,
}
use remote_deck.Store.Proxies.{
  find_host, proxy_reference_matches_host, validate_host_deletion_state,
}
use remote_deck.Store.Repository.{
  AppRepository, contains, host, without_host, removed_from, delete_host_locked,
  finish_host_deletion,
}
use remote_deck.Store.Inversion.{
  fail_if-ok, ok_or-ok, retain-keep, retain-In, commit-ok, persisted-ok, any-none, and-false,
  equal-not, not-equal,
}

find_host-none :
    (id : Text) (hosts : List HostProfile)
    → ((h : HostProfile) → In h hosts → h.id ≢ id)
    → find_host id hosts ≡ none
find_host-none id [] d = refl
find_host-none id (h ∷ hosts) d = elim (Bool-cases (text_eq h.id id)) [
  | inl e ↦ absurd (d h (inl refl) ((text_eq_iff h.id id).0 e))
  | inr e ↦ rw e (find_host-none id hosts (λ k m. d k (inr m)))
]

contains-removed : (id : Text) (ids : List Text) → contains (removed_from id ids) id ≡ false
contains-removed id [] = refl
contains-removed id (i ∷ ids) = ground (arith, contains-removed id ids)

-- What the deletion of a host does to the stored state.
pub record IsDeleted (id : Text) (old new : PersistedState) : Type 0 where
  pub host_gone : (h : HostProfile) → In h new.hosts → h.id ≢ id
  pub hosts_kept : (h : HostProfile) → In h old.hosts → h.id ≢ id → In h new.hosts
  pub tunnels_gone : (t : TunnelProfile) → In t new.tunnels → t.host_id ≢ id
  pub tunnels_kept : (t : TunnelProfile) → In t old.tunnels → t.host_id ≢ id → In t new.tunnels
  pub commands_gone : (c : CommandPreset) → In c new.command_presets → c.host_id ≢ some id
  pub commands_kept :
      (c : CommandPreset)
      → In c old.command_presets
      → c.host_id ≢ some id
      → In c new.command_presets
  -- The host was there, and no other host is reached through it.
  pub removed : HostProfile
  pub was_stored : find_host id old.hosts ≡ some removed
  pub no_reference :
      (h : HostProfile) → In h new.hosts → proxy_reference_matches_host h.proxy_jump removed ≡ false

owned_by : Text → Option Text → Bool
owned_by id scope = is_some_and scope (λ owner. text_eq owner id)

owned_by-not : (id : Text) (scope : Option Text) → not (owned_by id scope) ≡ true → scope ≢ some id
unfolding owned_by
owned_by-not id none h e = cc
owned_by-not id (some owner) h e =
    let same : owner ≡ id = cc in let t = (text_eq_iff owner id).1 same in absurd (ground arith)

not-owned_by : (id : Text) (scope : Option Text) → scope ≢ some id → not (owned_by id scope) ≡ true
unfolding owned_by
not-owned_by id none h = refl
not-owned_by id (some owner) h = equal-not owner id (λ e. h (ap some e))

-- The host that a deletion removes, and that no other host refers to it.
deletable :
    (hosts : List HostProfile) (id : Text)
    → validate_host_deletion_state hosts id ≡ ok tt
    → (removed : HostProfile) × (find_host id hosts ≡ some removed)
      × ((h : HostProfile)
          → In h hosts
          → h.id ≢ id
          → proxy_reference_matches_host h.proxy_jump removed ≡ false)
unfolding validate_host_deletion_state
deletable hosts id v =
    let (removed, f, r) = >>=-ok (ok_or (find_host id hosts) not_found) _ tt v in
    let free = fail_if-ok _ validation r in
    (
      removed,
      ok_or-ok (find_host id hosts) not_found removed f,
      λ h m d. and-false _ _ (any-none _ h hosts free m) (equal-not h.id id d),
    )

without_host-IsDeleted :
    (id : Text) (s : PersistedState)
    → validate_host_deletion_state s.hosts id ≡ ok tt
    → IsDeleted id s (without_host id s)
unfolding owned_by
without_host-IsDeleted id s v =
    let (removed, f, free) = deletable s.hosts id v in
    record {
      host_gone = λ h m. not-equal h.id id (retain-In _ h s.hosts m).1;
      hosts_kept = λ h m d. retain-keep _ h s.hosts m (equal-not h.id id d);
      tunnels_gone = λ t m. not-equal t.host_id id (retain-In _ t s.tunnels m).1;
      tunnels_kept = λ t m d. retain-keep _ t s.tunnels m (equal-not t.host_id id d);
      commands_gone = λ c m. owned_by-not id c.host_id (retain-In _ c s.command_presets m).1;
      commands_kept = λ c m d. retain-keep _ c s.command_presets m (not-owned_by id c.host_id d);
      removed = removed;
      was_stored = f;
      no_reference = λ h m. let (i, d) = retain-In _ h s.hosts m in free h i (not-equal h.id id d);
    }

module _ (disk : PersistedState → AppResult (Unit {0})) where
  delete_host_locked-ok :
      (id : Text) (repo : AppRepository)
      → (delete_host_locked disk id repo).1 ≡ ok tt
      → IsDeleted id repo.stored (delete_host_locked disk id repo).0.stored
  unfolding delete_host_locked
  delete_host_locked-ok id repo h =
      let (made, _) = commit-ok disk repo _ tt h in
      let (v, r) = >>-ok (validate_host_deletion_state repo.stored.hosts id) _ _ made in
      let (_, p) = >>-ok _ _ _ r in
      let same = ap (λ m. m.0) (persisted-ok disk (without_host id repo.stored, tt) _ p) in
      subst (IsDeleted id repo.stored) same (without_host-IsDeleted id repo.stored v)

  host-gone :
      (id : Text) (repo : AppRepository)
      → contains repo.deleting_hosts id ≡ false
      → find_host id repo.stored.hosts ≡ none
      → host repo id ≡ err not_found
  unfolding host
  host-gone id repo c f = rw (c, f) refl

  finish-unprepared :
      (id : Text) (repo : AppRepository)
      → contains repo.deleting_hosts id ≡ false
      → finish_host_deletion disk id repo ≡ (repo, err state)
  unfolding finish_host_deletion
  finish-unprepared id repo e = rw e refl

  -- What `finish_host_deletion` gives on a deletion that has begun.
  finished : Text → AppRepository → AppRepository × AppResult (Unit {0})
  finished id repo =
      let (repo', result) = delete_host_locked disk id repo in
      (record repo' { deleting_hosts = removed_from id repo'.deleting_hosts }, result)

  finish-prepared :
      (id : Text) (repo : AppRepository)
      → contains repo.deleting_hosts id ≡ true
      → finish_host_deletion disk id repo ≡ finished id repo
  unfolding finish_host_deletion finished
  finish-prepared id repo e = rw e refl

  IsFinished : Text → AppRepository → AppRepository → Type 0
  IsFinished id repo new =
      (contains repo.deleting_hosts id ≡ true)
      × IsDeleted id repo.stored new.stored
      × (host new id ≡ err not_found)

  finished_ok :
      (id : Text) (repo : AppRepository)
      → contains repo.deleting_hosts id ≡ true
      → (finished id repo).1 ≡ ok tt
      → IsFinished id repo (finished id repo).0
  unfolding finished IsFinished
  finished_ok id repo e h =
      let deleted = delete_host_locked-ok id repo h in
      (
        e,
        deleted,
        host-gone id (finished id repo).0 (contains-removed id _)
            (find_host-none id (finished id repo).0.stored.hosts deleted.host_gone),
      )

  -- A deletion that succeeds had begun. It removes the host with its tunnels and its commands and
  -- keeps every other one; no host that stays refers to the removed one as its proxy; and the
  -- repository then neither finds the host nor holds it as being deleted.
  pub finish_host_deletion_ok :
      (id : Text) (repo : AppRepository)
      → (finish_host_deletion disk id repo).1 ≡ ok tt
      → (contains repo.deleting_hosts id ≡ true)
        × IsDeleted id repo.stored (finish_host_deletion disk id repo).0.stored
        × (host (finish_host_deletion disk id repo).0 id ≡ err not_found)
  unfolding IsFinished
  finish_host_deletion_ok id repo h = elim (Bool-cases (contains repo.deleting_hosts id)) [
    | inr e ↦ absurd (let k = finish-unprepared id repo e in cc)
    | inl e ↦
        let same = finish-prepared id repo e in
        subst (λ r. IsFinished id repo r.0) (sym same)
          (finished_ok id repo e (ap (λ r. r.1) (sym same) ∙ h))
  ]
