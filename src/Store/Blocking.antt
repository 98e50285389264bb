-- ===== src/Store/Blocking.antt =====
-- What a host's deletion holds back while it is under way in store.rs.
use remote_deck.Base.{
  ◌≡◌, refl, Bool, true, false, not, Option, none, some, List, [], ◌∷◌, Text, is_empty, text_eq,
  text_eq_iff, is_some_and, Result, ok, err, ◌>>=◌, is_ok, fail_if,
}
use remote_deck.Model.{AppResult, AppError, state, PersistedState}
use remote_deck.Store.Validate.{validate_import_hash}
use remote_deck.Store.Repository.{
  AppRepository, contains, host, preview_host, begin_host_deletion, mark_deleting, commit,
  save_host, save_tunnel, save_command, delete_command_for_host,
}
use remote_deck.Store.Import.{import_hosts, import_batch}
use remote_deck.Store.Steps.{
  Operation, save_a_host, save_a_tunnel, save_a_command, delete_a_tunnel, delete_a_command,
  change_settings, begin_deletion, finish_deletion, abort_deletion, import_some_hosts,
  import_a_batch, outcome, step,
}

-- The calls that name a host, and the imports, which may name any. A save that moves a tunnel or a
-- command to another host names only that one, as in the source.
unfoldable pub concerns : Text → Operation → Bool
concerns id (save_a_host draft now new_id) = is_some_and draft.id (λ i. text_eq i id)
concerns id (save_a_tunnel draft now new_id) = text_eq draft.host_id id
concerns id (save_a_command draft now new_id) = is_some_and draft.host_id (λ i. text_eq i id)
concerns id (delete_a_command command_id host_id) = text_eq host_id id
concerns id (begin_deletion i) = text_eq i id
concerns id (import_some_hosts clock fresh drafts) = not (is_empty drafts)
concerns id (import_a_batch clock fresh batch) = true
concerns id _ = false

-- A call that failed and changed nothing.
abbrev pub IsRefused : {A : Type 0} → AppRepository → AppRepository × AppResult A → Type 0
IsRefused repo r = (r.0 ≡ repo) × (is_ok r.1 ≡ false)

contains-same :
    (ids : List Text) (i id : Text)
    → text_eq i id ≡ true
    → contains ids id ≡ true
    → contains ids i ≡ true
contains-same ids i id e c = rw ((text_eq_iff i id).0 e) c

scope-held :
    (ids : List Text) (scope : Option Text) (id : Text)
    → is_some_and scope (λ i. text_eq i id) ≡ true
    → contains ids id ≡ true
    → is_some_and scope (contains ids) ≡ true
scope-held ids none id e c = cc
scope-held ids (some i) id e c = contains-same ids i id e c

not-empty : (ids : List Text) (id : Text) → contains ids id ≡ true → not (is_empty ids) ≡ true
not-empty [] id c = cc
not-empty (i ∷ ids) id c = refl

fails {κ} :
    {A : Type κ} (b : Bool) (e : AppError) (k : Unit {0} → Result AppError A)
    → b ≡ true
    → is_ok (fail_if b e >>= k) ≡ false
fails true e k h = refl
fails false e k h = cc

fails-first {κ μ} :
    {A : Type κ} {B : Type μ} (m : Result AppError A) (k : A → Result AppError B)
    → is_ok m ≡ false
    → is_ok (m >>= k) ≡ false
fails-first (ok a) k h = cc
fails-first (err e) k h = refl

fails-later {κ μ} :
    {A : Type κ} {B : Type μ} (m : Result AppError A) (k : A → Result AppError B)
    → ((a : A) → is_ok (k a) ≡ false)
    → is_ok (m >>= k) ≡ false
fails-later (ok a) k h = h a
fails-later (err e) k h = refl

outcome-IsRefused :
    {A : Type 0} (repo : AppRepository) (r : AppRepository × AppResult A)
    → IsRefused repo r
    → IsRefused repo (outcome r)
outcome-IsRefused repo (s, ok a) h = h
outcome-IsRefused repo (s, err e) h = h

mark_deleting-IsRefused :
    (id : Text) (repo : AppRepository) (r : AppResult (Unit {0}))
    → is_ok r ≡ false
    → IsRefused repo (mark_deleting id repo r)
unfolding mark_deleting
mark_deleting-IsRefused id repo (ok u) h = cc
mark_deleting-IsRefused id repo (err e) h = (refl, refl)

module _ (disk : PersistedState → AppResult (Unit {0})) where
  commit-IsRefused :
      {A : Type 0} (repo : AppRepository) (r : AppResult (PersistedState × A))
      → is_ok r ≡ false
      → IsRefused repo (commit disk repo r)
  commit-IsRefused repo (ok a) h = cc
  commit-IsRefused repo (err e) h = (refl, refl)

  -- While a host is being deleted, each call that names it, and each import that is not empty, fails
  -- and changes nothing. Nor is the host found by its id.
  pub deleting_blocks :
      (id : Text) (repo : AppRepository) (o : Operation)
      → contains repo.deleting_hosts id ≡ true
      → concerns id o ≡ true
      → IsRefused repo (step disk o repo) × (host repo id ≡ err state)
  unfolding concerns step host save_host preview_host save_tunnel save_command
      delete_command_for_host begin_host_deletion import_hosts import_batch
  deleting_blocks id repo (save_a_host draft now new_id) c h = (
    outcome-IsRefused repo _ (
        commit-IsRefused repo _ (
          fails-first (preview_host repo draft now new_id) _
            (fails _ _ _ (scope-held repo.deleting_hosts draft.id id h c)))),
    rw c refl,
  )
  deleting_blocks id repo (save_a_tunnel draft now new_id) c h = (
    outcome-IsRefused repo _ (
        commit-IsRefused repo _
          (fails _ _ _ (contains-same repo.deleting_hosts draft.host_id id h c))),
    rw c refl,
  )
  deleting_blocks id repo (save_a_command draft now new_id) c h = (
    outcome-IsRefused repo _ (
        commit-IsRefused repo _
          (fails _ _ _ (scope-held repo.deleting_hosts draft.host_id id h c))),
    rw c refl,
  )
  deleting_blocks id repo (delete_a_command command_id host_id) c h = (
    commit-IsRefused repo _ (fails _ _ _ (contains-same repo.deleting_hosts host_id id h c)),
    rw c refl,
  )
  deleting_blocks id repo (begin_deletion i) c h = (
    mark_deleting-IsRefused i repo _ (fails _ _ _ (contains-same repo.deleting_hosts i id h c)),
    rw c refl,
  )
  deleting_blocks id repo (import_some_hosts clock fresh []) c h = cc
  deleting_blocks id repo (import_some_hosts clock fresh (d ∷ drafts)) c h = (
    outcome-IsRefused repo _
        (commit-IsRefused repo _ (fails _ _ _ (not-empty repo.deleting_hosts id c))),
    rw c refl,
  )
  deleting_blocks id repo (import_a_batch clock fresh batch) c h = (
    outcome-IsRefused repo _ (
        commit-IsRefused repo _ (
          fails-later (validate_import_hash batch.source_hash) _
            (λ _. fails _ _ _ (not-empty repo.deleting_hosts id c)))),
    rw c refl,
  )
  deleting_blocks id repo (delete_a_tunnel tunnel_id) c h = cc
  deleting_blocks id repo (change_settings patch) c h = cc
  deleting_blocks id repo (finish_deletion i) c h = cc
  deleting_blocks id repo (abort_deletion i) c h = cc
