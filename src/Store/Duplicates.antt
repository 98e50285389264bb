-- ===== src/Store/Duplicates.antt =====
-- An import of store.rs that is made again.
use remote_deck.Base.{
  ℕ, ◌≡◌, refl, ap, ◌∙◌, subst, Bool, true, false, not, List, [], ◌∷◌, ◌++◌, Text, any, is_empty,
  eq_ignore_ascii_case, eq_ignore_ascii_case_iff, to_ascii_lowercase, ok, ◌>>=◌, ◌>>◌, >>-ok,
  >>=-ok, fail_if, ok-injective, if◌then◌else◌, arith,
}
use remote_deck.Model.{AppResult, state, validation, PersistedState}
use remote_deck.Store.Validate.{validate_import_hash}
use remote_deck.Store.Repository.{AppRepository, has_import, persisted}
use remote_deck.Store.Import.{
  ImportBatch, ImportBatchResult, duplicate_result, batch_result, is_empty_batch, batch_state,
  import_batch, add_batch_hosts, settle_jumps, add_batch_tunnels, add_batch_commands,
  patch_settings,
}
use remote_deck.Store.Inversion.{commit-ok, persisted-ok, fail_if-ok}

any-last : (p : Text → Bool) (hs : List Text) (h : Text) → p h ≡ true → any p (hs ++ h ∷ []) ≡ true
any-last p [] h e = ground arith
any-last p (x ∷ hs) h e = ground (arith, any-last p hs h e)

ignore_case_refl : (h : Text) → eq_ignore_ascii_case h h ≡ true
ignore_case_refl h = (eq_ignore_ascii_case_iff h h).1 refl

-- The import's digest is among the stored ones.
abbrev IsRecorded : ImportBatch → PersistedState → Type 0
IsRecorded batch s =
    any (λ hash. eq_ignore_ascii_case hash (to_ascii_lowercase batch.source_hash))
      s.imported_source_hashes
    ≡ true

not-false : (b : Bool) → not b ≡ false → b ≡ true
not-false b h = ground arith

module _ (clock : ℕ → ℕ) (fresh : ℕ → Text) (disk : PersistedState → AppResult (Unit {0})) where
  batch_state-IsRecorded :
      (batch : ImportBatch) (s t : PersistedState)
      → batch_state clock fresh batch s ≡ ok t
      → IsRecorded batch t
  unfolding batch_state
  batch_state-IsRecorded batch s t h =
      let (added, _, h1) = >>=-ok (add_batch_hosts clock fresh 0 batch.hosts [] s) _ t h in
      let (settled, _, h2) = >>=-ok (settle_jumps _ added.0) _ t h1 in
      let (tunneled, _, h3) =
        >>=-ok (add_batch_tunnels clock fresh _ batch.tunnels _ _ settled) _ t h2 in
      let (commanded, _, h4) =
        >>=-ok (add_batch_commands clock fresh _ batch.commands _ _ tunneled) _ t h3 in
      let (patched, _, h5) = >>=-ok (patch_settings batch.settings commanded) _ t h4 in
      subst (IsRecorded batch) (ok-injective h5) (
        any-last _ patched.imported_source_hashes (to_ascii_lowercase batch.source_hash)
          (ignore_case_refl (to_ascii_lowercase batch.source_hash)))

  -- The part of `import_batch` behind the checks of the digest and of deletions.
  abbrev imported_state :
      Bool → ImportBatch → PersistedState → AppResult (PersistedState × ImportBatchResult)
  imported_state known batch s = if known then ok (s, duplicate_result) else (do
    fail_if (is_empty_batch batch) validation
    t ← batch_state clock fresh batch s
    persisted disk (t, batch_result batch))

  imported_state-IsRecorded :
      (known : Bool) (batch : ImportBatch) (s t : PersistedState) (r : ImportBatchResult)
      → (known ≡ true → IsRecorded batch s)
      → imported_state known batch s ≡ ok (t, r)
      → IsRecorded batch t
  imported_state-IsRecorded true batch s t r k h =
      subst (IsRecorded batch) (ap (λ m. m.0) (ok-injective h)) (k refl)
  imported_state-IsRecorded false batch s t r k h =
      let (_, h1) = >>-ok (fail_if (is_empty_batch batch) validation) _ (t, r) h in
      let (made, b, h2) = >>=-ok (batch_state clock fresh batch s) _ (t, r) h1 in
      let same = ap (λ m. m.0) (persisted-ok disk (made, batch_result batch) (t, r) h2) in
      subst (IsRecorded batch) same (batch_state-IsRecorded batch s made b)

  -- What an import that succeeded leaves behind.
  import_batch-done :
      (batch : ImportBatch) (repo : AppRepository) (r : ImportBatchResult)
      → (import_batch clock fresh disk batch repo).1 ≡ ok r
      → (validate_import_hash batch.source_hash ≡ ok tt)
        × (is_empty (import_batch clock fresh disk batch repo).0.deleting_hosts ≡ true)
        × IsRecorded batch (import_batch clock fresh disk batch repo).0.stored
  unfolding import_batch has_import
  import_batch-done batch repo r h =
      let (made, d) = commit-ok disk repo _ r h in
      let (v, h1) = >>-ok (validate_import_hash batch.source_hash) _ _ made in
      let (e, h2) = >>-ok (fail_if (not (is_empty repo.deleting_hosts)) state) _ _ h1 in
      (
        v,
        ap is_empty d ∙ not-false (is_empty repo.deleting_hosts) (fail_if-ok _ state e),
        imported_state-IsRecorded _ batch repo.stored _ r (λ known. known) h2,
      )

import_batch-again :
    (clock : ℕ → ℕ) (fresh : ℕ → Text) (disk : PersistedState → AppResult (Unit {0}))
    (batch : ImportBatch) (repo : AppRepository)
    → validate_import_hash batch.source_hash ≡ ok tt
    → is_empty repo.deleting_hosts ≡ true
    → IsRecorded batch repo.stored
    → import_batch clock fresh disk batch repo ≡ (repo, ok duplicate_result)
unfolding import_batch has_import
import_batch-again clock fresh disk batch repo v e known = rw (v, e, known) refl

-- An import is done once: after an import that succeeded, also one that was a duplicate itself, the
-- same batch is a duplicate. Whatever the time, the ids and the disk then are, it changes nothing.
pub import_batch-duplicate :
    (clock later : ℕ → ℕ) (fresh others : ℕ → Text)
    (disk next : PersistedState → AppResult (Unit {0})) (batch : ImportBatch) (repo : AppRepository)
    (r : ImportBatchResult)
    → (import_batch clock fresh disk batch repo).1 ≡ ok r
    → import_batch later others next batch (import_batch clock fresh disk batch repo).0
      ≡ ((import_batch clock fresh disk batch repo).0, ok duplicate_result)
import_batch-duplicate clock later fresh others disk next batch repo r h =
    let (v, e, known) = import_batch-done clock fresh disk batch repo r h in
    import_batch-again later others next batch (import_batch clock fresh disk batch repo).0 v e
      known
