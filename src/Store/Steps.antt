-- ===== src/Store/Steps.antt =====
-- Runs of the operations of store.rs on one repository, and what every run keeps.
use remote_deck.Base.{
  ℕ, ◌≡◌, refl, ◌⊎◌, inl, inr, Bool, true, false, List, [], ◌∷◌, Text, ok, err, ◌>>=◌, Result-cases,
  Bool-cases, if◌then◌else◌,
}
use remote_deck.Model.{
  AppResult, HostDraft, TunnelDraft, CommandPresetDraft, SettingsPatch, PersistedState,
}
use remote_deck.Store.Persisted.{validate_persisted_state}
use remote_deck.Store.Repository.{
  AppRepository, contains, mark_deleting, removed_from, begin_host_deletion, abort_host_deletion,
  write_state, commit, persisted, save_host, delete_host_locked, finish_host_deletion, save_tunnel,
  delete_tunnel, save_command, delete_command_for_host, update_settings,
}
use remote_deck.Store.Import.{ImportBatch, import_hosts, import_batch}
use remote_deck.Store.Consistent.{IsConsistent, validate_persisted_state-IsConsistent}

-- A call of the repository that may change it, with the time and the id that it draws.
pub data Operation : Type 0 where
  save_a_host : HostDraft → ℕ → Text → Operation
  save_a_tunnel : TunnelDraft → ℕ → Text → Operation
  save_a_command : CommandPresetDraft → ℕ → Text → Operation
  delete_a_tunnel : Text → Operation
  delete_a_command : Text → Text → Operation
  change_settings : SettingsPatch → Operation
  begin_deletion finish_deletion abort_deletion : Text → Operation
  import_some_hosts : (ℕ → ℕ) → (ℕ → Text) → List HostDraft → Operation
  import_a_batch : (ℕ → ℕ) → (ℕ → Text) → ImportBatch → Operation

-- Whether a call succeeded.
abbrev pub outcome :
    {A : Type 0} → AppRepository × AppResult A → AppRepository × AppResult (Unit {0})
outcome (repo, ok a) = (repo, ok tt)
outcome (repo, err e) = (repo, err e)

module _ (disk : PersistedState → AppResult (Unit {0})) where
  unfoldable pub step : Operation → AppRepository → AppRepository × AppResult (Unit {0})
  step (save_a_host draft now id) repo = outcome (save_host disk draft now id repo)
  step (save_a_tunnel draft now id) repo = outcome (save_tunnel disk draft now id repo)
  step (save_a_command draft now id) repo = outcome (save_command disk draft now id repo)
  step (delete_a_tunnel id) repo = delete_tunnel disk id repo
  step (delete_a_command id host_id) repo = delete_command_for_host disk id host_id repo
  step (change_settings patch) repo = outcome (update_settings disk patch repo)
  step (begin_deletion id) repo = begin_host_deletion id repo
  step (finish_deletion id) repo = finish_host_deletion disk id repo
  step (abort_deletion id) repo = (abort_host_deletion id repo, ok tt)
  step (import_some_hosts clock fresh drafts) repo =
      outcome (import_hosts clock fresh disk drafts repo)
  step (import_a_batch clock fresh batch) repo = outcome (import_batch clock fresh disk batch repo)

  unfoldable pub run : List Operation → AppRepository → AppRepository
  run [] repo = repo
  run (o ∷ os) repo = run os ((step o repo).0)

  -- A state that passed the check and was written to disk.
  abbrev pub IsWritten : PersistedState → Type 0
  IsWritten s = (validate_persisted_state s ≡ ok tt) × (disk s ≡ ok tt)

  -- The call failed and stored nothing, or it succeeded and stored what it wrote, or it succeeded
  -- without a change.
  abbrev pub IsAtomic : {A : Type 0} → PersistedState → AppRepository × AppResult A → Type 0
  IsAtomic s (repo, ok a) = (repo.stored ≡ s) ⊎ IsWritten repo.stored
  IsAtomic s (repo, err e) = repo.stored ≡ s

  -- What an operation made is the old state or was written.
  abbrev pub IsSettled : {A : Type 0} → PersistedState → AppResult (PersistedState × A) → Type 0
  IsSettled s (ok made) = (made.0 ≡ s) ⊎ IsWritten made.0
  IsSettled s (err e) = Unit

  commit-IsAtomic :
      {A : Type 0} (repo : AppRepository) (r : AppResult (PersistedState × A))
      → IsSettled repo.stored r
      → IsAtomic repo.stored (commit disk repo r)
  commit-IsAtomic repo (ok (s, a)) h = h
  commit-IsAtomic repo (err e) h = refl

  persisted-IsSettled :
      {A : Type 0} (s : PersistedState) (made : PersistedState × A)
      → IsSettled s (persisted disk made)
  unfolding write_state
  persisted-IsSettled s (t, a) = elim (Result-cases (validate_persisted_state t)) [
    | inl (u, e) ↦ elim (Result-cases (disk t)) [
      | inl (v, d) ↦ rw (e, d) (inr (e, d))
      | inr (v, d) ↦ rw (e, d) tt
    ]
    | inr (u, e) ↦ rw e tt
  ]

  bind-IsSettled :
      {A B : Type 0} (s : PersistedState) (m : AppResult A) (f : A → AppResult (PersistedState × B))
      → ((a : A) → IsSettled s (f a))
      → IsSettled s (m >>= f)
  bind-IsSettled s (ok a) f h = h a
  bind-IsSettled s (err e) f h = tt

  outcome-IsAtomic :
      {A : Type 0} (s : PersistedState) (r : AppRepository × AppResult A)
      → IsAtomic s r
      → IsAtomic s (outcome r)
  outcome-IsAtomic s (repo, ok a) h = h
  outcome-IsAtomic s (repo, err e) h = h

  unchanged-IsSettled : {A : Type 0} (s : PersistedState) (a : A) → IsSettled s (ok (s, a))
  unchanged-IsSettled s a = inl refl

  if-IsSettled :
      {A : Type 0} (s : PersistedState) (b : Bool) (x y : AppResult (PersistedState × A))
      → IsSettled s x
      → IsSettled s y
      → IsSettled s (if b then x else y)
  if-IsSettled s true x y h k = h
  if-IsSettled s false x y h k = k

  mark_deleting-IsAtomic :
      (id : Text) (repo : AppRepository) (r : AppResult (Unit {0}))
      → IsAtomic repo.stored (mark_deleting id repo r)
  unfolding mark_deleting
  mark_deleting-IsAtomic id repo (ok u) = inl refl
  mark_deleting-IsAtomic id repo (err e) = refl

  with_deleting-IsAtomic :
      {A : Type 0} (s : PersistedState) (ids : List Text) (r : AppRepository × AppResult A)
      → IsAtomic s r
      → IsAtomic s (record (r.0) { deleting_hosts = ids }, r.1)
  with_deleting-IsAtomic s ids (repo, ok a) h = h
  with_deleting-IsAtomic s ids (repo, err e) h = h

  delete_host_locked-IsAtomic :
      (id : Text) (repo : AppRepository) → IsAtomic repo.stored (delete_host_locked disk id repo)
  unfolding delete_host_locked
  delete_host_locked-IsAtomic id repo =
      search (commit-IsAtomic, bind-IsSettled, persisted-IsSettled)

  finish_host_deletion-IsAtomic :
      (id : Text) (repo : AppRepository) → IsAtomic repo.stored (finish_host_deletion disk id repo)
  unfolding finish_host_deletion
  finish_host_deletion-IsAtomic id repo = elim (Bool-cases (contains repo.deleting_hosts id)) [
    | inl e ↦ rw e (
        with_deleting-IsAtomic repo.stored
          (removed_from id ((delete_host_locked disk id repo).0).deleting_hosts)
          (delete_host_locked disk id repo) (delete_host_locked-IsAtomic id repo))
    | inr e ↦ rw e refl
  ]

  import_hosts-IsAtomic :
      (clock : ℕ → ℕ) (fresh : ℕ → Text) (drafts : List HostDraft) (repo : AppRepository)
      → IsAtomic repo.stored (import_hosts clock fresh disk drafts repo)
  unfolding import_hosts
  import_hosts-IsAtomic clock fresh [] repo = inl refl
  import_hosts-IsAtomic clock fresh (d ∷ drafts) repo =
      search (commit-IsAtomic, bind-IsSettled, persisted-IsSettled) depth 12

  import_batch-IsAtomic :
      (clock : ℕ → ℕ) (fresh : ℕ → Text) (batch : ImportBatch) (repo : AppRepository)
      → IsAtomic repo.stored (import_batch clock fresh disk batch repo)
  unfolding import_batch
  import_batch-IsAtomic clock fresh batch repo =
      search
        (commit-IsAtomic, bind-IsSettled, if-IsSettled, unchanged-IsSettled, persisted-IsSettled)
        depth 14

  -- Every call of the repository is atomic: one that fails leaves the stored state as it was, and one
  -- that succeeds leaves it as it was or stores a state that passed the check and that the disk took.
  pub step-IsAtomic : (o : Operation) (repo : AppRepository) → IsAtomic repo.stored (step o repo)
  unfolding step save_host save_tunnel save_command delete_tunnel delete_command_for_host
      update_settings abort_host_deletion begin_host_deletion
  step-IsAtomic (save_a_host draft now id) repo =
      search (outcome-IsAtomic, commit-IsAtomic, bind-IsSettled, persisted-IsSettled)
  step-IsAtomic (save_a_tunnel draft now id) repo =
      search (outcome-IsAtomic, commit-IsAtomic, bind-IsSettled, persisted-IsSettled)
  step-IsAtomic (save_a_command draft now id) repo =
      search (outcome-IsAtomic, commit-IsAtomic, bind-IsSettled, persisted-IsSettled)
  step-IsAtomic (delete_a_tunnel id) repo =
      search (commit-IsAtomic, bind-IsSettled, persisted-IsSettled) depth 12
  step-IsAtomic (delete_a_command id host_id) repo =
      search (commit-IsAtomic, bind-IsSettled, persisted-IsSettled) depth 12
  step-IsAtomic (change_settings patch) repo =
      search (outcome-IsAtomic, commit-IsAtomic, bind-IsSettled, persisted-IsSettled)
  step-IsAtomic (begin_deletion id) repo = mark_deleting-IsAtomic id repo _
  step-IsAtomic (finish_deletion id) repo = finish_host_deletion-IsAtomic id repo
  step-IsAtomic (abort_deletion id) repo = inl refl
  step-IsAtomic (import_some_hosts clock fresh drafts) repo =
      outcome-IsAtomic repo.stored _ (import_hosts-IsAtomic clock fresh drafts repo)
  step-IsAtomic (import_a_batch clock fresh batch) repo =
      outcome-IsAtomic repo.stored _ (import_batch-IsAtomic clock fresh batch repo)

  step-IsValid :
      (s : PersistedState) (r : AppRepository × AppResult (Unit {0}))
      → IsAtomic s r
      → validate_persisted_state s ≡ ok tt
      → validate_persisted_state (r.0).stored ≡ ok tt
  step-IsValid s (repo, ok a) (inl e) v = rw e v
  step-IsValid s (repo, ok a) (inr w) v = w.0
  step-IsValid s (repo, err e) h v = rw h v

  pub run-IsValid :
      (os : List Operation) (repo : AppRepository)
      → validate_persisted_state repo.stored ≡ ok tt
      → validate_persisted_state (run os repo).stored ≡ ok tt
  unfolding run
  run-IsValid [] repo v = v
  run-IsValid (o ∷ os) repo v =
      run-IsValid os (step o repo).0
        (step-IsValid repo.stored (step o repo) (step-IsAtomic o repo) v)

  -- Whatever calls are made, in whatever order and whichever of them fail: from a valid state the
  -- repository's state stays consistent. Its hosts, tunnels and command presets are bounded in
  -- number, their ids are unique, so are the hosts' aliases up to ASCII case, each tunnel and each
  -- host command has its host, each host has a port and a connect timeout of 1 to 300 seconds, and no
  -- trimmed hostname or username starts with a dash or has a blank or a control character.
  pub run-IsConsistent :
      (os : List Operation) (repo : AppRepository)
      → validate_persisted_state repo.stored ≡ ok tt
      → IsConsistent (run os repo).stored
  run-IsConsistent os repo v =
      validate_persisted_state-IsConsistent (run os repo).stored (run-IsValid os repo v)
