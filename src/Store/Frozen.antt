-- ===== src/Store/Frozen.antt =====
-- What a run of store.rs can do to a host while its deletion is under way.
use remote_deck.Base.{
  ◌≡◌, refl, inl, inr, Bool, true, false, not, List, [], ◌∷◌, Text, text_eq, text_eq_iff,
  Bool-cases, ok, err, arith, all, &&_iff,
}
use remote_deck.Model.{AppResult, state, PersistedState}
use remote_deck.Store.Repository.{
  AppRepository, host, commit, contains, removed_from, mark_deleting, save_host, save_tunnel,
  delete_tunnel, save_command, delete_command_for_host, update_settings, begin_host_deletion,
  delete_host_locked, finish_host_deletion, abort_host_deletion,
}
use remote_deck.Store.Steps.{
  Operation, save_a_host, save_a_tunnel, save_a_command, delete_a_tunnel, delete_a_command,
  change_settings, begin_deletion, finish_deletion, abort_deletion, import_some_hosts,
  import_a_batch, outcome, step, run,
}
use remote_deck.Store.Import.{import_hosts, import_batch}
use remote_deck.Store.Blocking.{concerns, IsRefused, deleting_blocks}

-- Neither the end nor the abandonment of the deletion of a host.
unfoldable pub leaves_deleting : Text → Operation → Bool
leaves_deleting id (finish_deletion i) = not (text_eq i id)
leaves_deleting id (abort_deletion i) = not (text_eq i id)
leaves_deleting id _ = true

contains-removed_other :
    (id i : Text) (ids : List Text)
    → text_eq i id ≡ false
    → contains ids id ≡ true
    → contains (removed_from i ids) id ≡ true
contains-removed_other id i [] d c = cc
contains-removed_other id i (j ∷ ids) d c =
    ground
      (arith, text_eq_iff j i, text_eq_iff j id, text_eq_iff i id, contains-removed_other id i ids)

outcome-deleting :
    {A : Type 0} (r : AppRepository × AppResult A)
    → (outcome r).0.deleting_hosts ≡ r.0.deleting_hosts
outcome-deleting (repo, ok a) = refl
outcome-deleting (repo, err e) = refl

-- A call that leaves the set of hosts being deleted, or only adds to it, keeps a host in it.
mark_deleting-keeps :
    (id i : Text) (repo : AppRepository) (r : AppResult (Unit {0}))
    → contains repo.deleting_hosts id ≡ true
    → contains (mark_deleting i repo r).0.deleting_hosts id ≡ true
unfolding mark_deleting
mark_deleting-keeps id i repo (ok u) c = ground arith
mark_deleting-keeps id i repo (err e) c = c

module _ (disk : PersistedState → AppResult (Unit {0})) where
  commit-deleting :
      {A : Type 0} (repo : AppRepository) (r : AppResult (PersistedState × A))
      → (commit disk repo r).0.deleting_hosts ≡ repo.deleting_hosts
  commit-deleting repo (ok made) = refl
  commit-deleting repo (err e) = refl

  finish-keeps :
      (id i : Text) (repo : AppRepository)
      → text_eq i id ≡ false
      → contains repo.deleting_hosts id ≡ true
      → contains (finish_host_deletion disk i repo).0.deleting_hosts id ≡ true
  unfolding finish_host_deletion delete_host_locked
  finish-keeps id i repo d c = elim (Bool-cases (contains repo.deleting_hosts i)) [
    | inr e ↦ rw e c
    | inl e ↦ rw e (contains-removed_other id i _ d (rw (commit-deleting repo _) c))
  ]

  step-keeps :
      (id : Text) (o : Operation) (repo : AppRepository)
      → leaves_deleting id o ≡ true
      → contains repo.deleting_hosts id ≡ true
      → contains (step disk o repo).0.deleting_hosts id ≡ true
  unfolding leaves_deleting step save_host save_tunnel save_command delete_tunnel
      delete_command_for_host update_settings begin_host_deletion abort_host_deletion import_hosts
      import_batch
  step-keeps id (save_a_host draft now new_id) repo l c = rw (outcome-deleting, commit-deleting) c
  step-keeps id (save_a_tunnel draft now new_id) repo l c = rw (outcome-deleting, commit-deleting) c
  step-keeps id (save_a_command draft now new_id) repo l c =
      rw (outcome-deleting, commit-deleting) c
  step-keeps id (delete_a_tunnel tunnel_id) repo l c = rw commit-deleting c
  step-keeps id (delete_a_command command_id host_id) repo l c = rw commit-deleting c
  step-keeps id (change_settings patch) repo l c = rw (outcome-deleting, commit-deleting) c
  step-keeps id (begin_deletion i) repo l c = mark_deleting-keeps id i repo _ c
  step-keeps id (finish_deletion i) repo l c = finish-keeps id i repo (ground arith) c
  step-keeps id (abort_deletion i) repo l c =
      contains-removed_other id i repo.deleting_hosts (ground arith) c
  step-keeps id (import_some_hosts clock fresh []) repo l c = c
  step-keeps id (import_some_hosts clock fresh (d ∷ drafts)) repo l c =
      rw (outcome-deleting, commit-deleting) c
  step-keeps id (import_a_batch clock fresh batch) repo l c =
      rw (outcome-deleting, commit-deleting) c

  run-keeps :
      (id : Text) (os : List Operation) (repo : AppRepository)
      → all (leaves_deleting id) os ≡ true
      → contains repo.deleting_hosts id ≡ true
      → contains (run disk os repo).deleting_hosts id ≡ true
  unfolding run
  run-keeps id [] repo l c = c
  run-keeps id (o ∷ os) repo l c =
      let (here, later) = (&&_iff (leaves_deleting id o) (all (leaves_deleting id) os)).0 l in
      run-keeps id os (step disk o repo).0 later (step-keeps id o repo here c)

  -- A deletion that has begun holds until it is finished or abandoned: after any calls that do
  -- neither for this host, each call that names it fails and changes nothing, namely a save of the
  -- host under its id, a save of a tunnel or a command whose draft names it, a deletion of a command
  -- under it, and a second beginning of its deletion; so does an import of any hosts or of a batch.
  -- And the host is not found by its id.
  pub run-deleting_blocks :
      (id : Text) (os : List Operation) (o : Operation) (repo : AppRepository)
      → contains repo.deleting_hosts id ≡ true
      → all (leaves_deleting id) os ≡ true
      → concerns id o ≡ true
      → IsRefused (run disk os repo) (step disk o (run disk os repo))
        × (host (run disk os repo) id ≡ err state)
  run-deleting_blocks id os o repo c l h =
      deleting_blocks disk id (run disk os repo) o (run-keeps id os repo l c) h
