-- ===== src/Store/Lookup.antt =====
-- Reading back what store.rs saved or deleted: the lists of tunnels and command presets are finite
-- maps from ids.
use remote_deck.Base.{
  ℕ, ◌≡◌, refl, sym, ap, ◌∙◌, subst, inl, inr, Bool, true, false, ◌&&◌, not, Option, none, some,
  List, [], ◌∷◌, Text, find, retain, text_eq, text_eq_iff, is_some, is_none, unwrap_or,
  Option-cases, ok, err, >>-ok, >>=-ok, ok_or, ok-injective, if◌then◌else◌, arith,
}
use remote_deck.Model.{
  AppResult, AppError, not_found, TunnelProfile, TunnelDraft, CommandPreset, CommandPresetDraft,
  PersistedState,
}
use remote_deck.Store.Apply.{
  upsert, edited, field_or, find_tunnel, find_command, tunnel_profile, command_preset,
  apply_tunnel_draft, apply_command_draft,
}
use remote_deck.Store.Validate.{validate_tunnel_draft, validate_command_draft}
use remote_deck.Store.Repository.{
  AppRepository, tunnel, command, save_tunnel, delete_tunnel, save_command,
}
use remote_deck.Store.Inversion.{fail_if-ok, commit-ok, persisted-ok}

module _ {A : Type 0} (id_of : A → Text) where
  find-upsert :
      (k : Text) (a : A) (xs : List A)
      → find (λ x. text_eq (id_of x) k) (upsert id_of a xs)
        ≡ (if text_eq (id_of a) k then some a else find (λ x. text_eq (id_of x) k) xs)
  unfolding upsert
  find-upsert k a [] = refl
  find-upsert k a (x ∷ xs) = ground (
    arith,
    text_eq_iff (id_of x) (id_of a),
    text_eq_iff (id_of x) k,
    text_eq_iff (id_of a) k,
    find-upsert k a xs,
  )

  find-retain :
      (k i : Text) (xs : List A)
      → find (λ x. text_eq (id_of x) k) (retain (λ x. not (text_eq (id_of x) i)) xs)
        ≡ (if text_eq i k then none else find (λ x. text_eq (id_of x) k) xs)
  find-retain k i [] = ground arith
  find-retain k i (x ∷ xs) =
      ground (
        arith,
        text_eq_iff (id_of x) i,
        text_eq_iff (id_of x) k,
        text_eq_iff i k,
        find-retain k i xs,
      )

  find-id :
      (k : Text) (a : A) (xs : List A) → find (λ x. text_eq (id_of x) k) xs ≡ some a → id_of a ≡ k
  find-id k a [] h = cc
  find-id k a (x ∷ xs) h = ground (arith, text_eq_iff (id_of x) k, find-id k a xs)

  -- The id of a saved value is the draft's, or a fresh one.
  saved-id :
      (draft_id : Option Text) (xs : List A) (new_id : Text)
      → (is_some draft_id && is_none (edited draft_id (λ id. find (λ x. text_eq (id_of x) id) xs)))
        ≡ false
      → field_or (edited draft_id (λ id. find (λ x. text_eq (id_of x) id) xs)) id_of new_id
        ≡ unwrap_or draft_id new_id
  saved-id none xs new_id h = refl
  saved-id (some i) xs new_id h = elim (Option-cases (find (λ x. text_eq (id_of x) i) xs)) [
    | inl e ↦ absurd (let k = subst (λ o. is_none o ≡ false) e h in cc)
    | inr (a, e) ↦ rw e (find-id i a xs e)
  ]

ok_or-if :
    {A : Type 0} (b : Bool) (a : A) (o : Option A) (e : AppError)
    → ◌≡◌ {A = AppResult A} (ok_or (if b then some a else o) e) (if b then ok a else ok_or o e)
ok_or-if true a o e = refl
ok_or-if false a o e = refl

ok_or-none :
    {A : Type 0} (b : Bool) (o : Option A) (e : AppError)
    → ◌≡◌ {A = AppResult A} (ok_or (if b then none else o) e) (if b then err e else ok_or o e)
ok_or-none true o e = refl
ok_or-none false o e = refl

-- What a draft makes of the tunnels: it replaces or adds one, of the draft's host and id.
abbrev IsTunnelMade : PersistedState → TunnelDraft → Text → PersistedState × TunnelProfile → Type 0
IsTunnelMade s draft new_id made =
    (made.0 ≡ record s { tunnels = upsert (λ item. item.id) made.1 s.tunnels })
    × (made.1.id ≡ unwrap_or draft.id new_id)
    × (made.1.host_id ≡ draft.host_id)

apply_tunnel_draft-ok :
    (s : PersistedState) (draft : TunnelDraft) (now : ℕ) (new_id : Text)
    (made : PersistedState × TunnelProfile)
    → apply_tunnel_draft s draft now new_id ≡ ok made
    → IsTunnelMade s draft new_id made
unfolding apply_tunnel_draft tunnel_profile
apply_tunnel_draft-ok s draft now new_id made h =
    let (_, h1) = >>-ok (validate_tunnel_draft draft) _ made h in
    let (_, h2) = >>-ok _ _ made h1 in
    let (_, h3) = >>-ok _ _ made h2 in
    let (known, h4) = >>-ok _ _ made h3 in
    let found =
      saved-id (λ item. item.id) draft.id s.tunnels new_id (fail_if-ok _ not_found known) in
    subst (IsTunnelMade s draft new_id) (ok-injective h4) (refl, found, refl)

abbrev IsCommandMade :
    PersistedState → CommandPresetDraft → Text → PersistedState × CommandPreset → Type 0
IsCommandMade s draft new_id made =
    (made.0 ≡ record s { command_presets = upsert (λ item. item.id) made.1 s.command_presets })
    × (made.1.id ≡ unwrap_or draft.id new_id)
    × (made.1.host_id ≡ draft.host_id)

apply_command_draft-ok :
    (s : PersistedState) (draft : CommandPresetDraft) (now : ℕ) (new_id : Text)
    (made : PersistedState × CommandPreset)
    → apply_command_draft s draft now new_id ≡ ok made
    → IsCommandMade s draft new_id made
unfolding apply_command_draft command_preset
apply_command_draft-ok s draft now new_id made h =
    let (_, h1) = >>-ok (validate_command_draft draft) _ made h in
    let (_, h2) = >>-ok _ _ made h1 in
    let (_, h3) = >>-ok _ _ made h2 in
    let (known, h4) = >>-ok _ _ made h3 in
    let found =
      saved-id (λ item. item.id) draft.id s.command_presets new_id (fail_if-ok _ not_found known) in
    subst (IsCommandMade s draft new_id) (ok-injective h4) (refl, found, refl)

module _ (disk : PersistedState → AppResult (Unit {0})) where
  -- A tunnel that was saved has the draft's host and its id, or the fresh id; looked up by that id
  -- it is found, and every other id finds what it found before. Hosts and commands stay.
  pub save_tunnel-lookup :
      (draft : TunnelDraft) (now : ℕ) (new_id : Text) (repo : AppRepository) (t : TunnelProfile)
      → (save_tunnel disk draft now new_id repo).1 ≡ ok t
      → (t.id ≡ unwrap_or draft.id new_id)
        × (t.host_id ≡ draft.host_id)
        × ((k : Text)
            → tunnel (save_tunnel disk draft now new_id repo).0 k
              ≡ (if text_eq t.id k then ok t else tunnel repo k))
        × ((save_tunnel disk draft now new_id repo).0.stored.hosts ≡ repo.stored.hosts)
        × ((save_tunnel disk draft now new_id repo).0.stored.command_presets
            ≡ repo.stored.command_presets)
  unfolding save_tunnel tunnel
  save_tunnel-lookup draft now new_id repo t h =
      let (made, _) = commit-ok disk repo _ t h in
      let (_, r) = >>-ok _ _ _ made in
      let (applied, a, p) = >>=-ok (apply_tunnel_draft repo.stored draft now new_id) _ _ r in
      let same = persisted-ok disk applied _ p in
      let (new, i, o) = apply_tunnel_draft-ok repo.stored draft now new_id _ (a ∙ ap ok same) in
      (
        i,
        o,
        (λ k.
            ap (λ s. ok_or (find_tunnel k s.tunnels) not_found) new
            ∙ ap (λ found. ok_or found not_found)
                (find-upsert (λ item. item.id) k t repo.stored.tunnels)
            ∙ ok_or-if (text_eq t.id k) t (find_tunnel k repo.stored.tunnels) not_found),
        ap (λ s. s.hosts) new,
        ap (λ s. s.command_presets) new,
      )

  -- A command preset that was saved has the draft's scope and its id, or the fresh id; looked up by
  -- that id it is found, and every other id finds what it found before. Hosts and tunnels stay.
  pub save_command-lookup :
      (draft : CommandPresetDraft) (now : ℕ) (new_id : Text) (repo : AppRepository)
      (c : CommandPreset)
      → (save_command disk draft now new_id repo).1 ≡ ok c
      → (c.id ≡ unwrap_or draft.id new_id)
        × (c.host_id ≡ draft.host_id)
        × ((k : Text)
            → command (save_command disk draft now new_id repo).0 k
              ≡ (if text_eq c.id k then ok c else command repo k))
        × ((save_command disk draft now new_id repo).0.stored.hosts ≡ repo.stored.hosts)
        × ((save_command disk draft now new_id repo).0.stored.tunnels ≡ repo.stored.tunnels)
  unfolding save_command command
  save_command-lookup draft now new_id repo c h =
      let (made, _) = commit-ok disk repo _ c h in
      let (_, r) = >>-ok _ _ _ made in
      let (applied, a, p) = >>=-ok (apply_command_draft repo.stored draft now new_id) _ _ r in
      let same = persisted-ok disk applied _ p in
      let (new, i, o) = apply_command_draft-ok repo.stored draft now new_id _ (a ∙ ap ok same) in
      (
        i,
        o,
        (λ k.
            ap (λ s. ok_or (find_command k s.command_presets) not_found) new
            ∙ ap (λ found. ok_or found not_found)
                (find-upsert (λ item. item.id) k c repo.stored.command_presets)
            ∙ ok_or-if (text_eq c.id k) c (find_command k repo.stored.command_presets) not_found),
        ap (λ s. s.hosts) new,
        ap (λ s. s.tunnels) new,
      )

  -- A tunnel that was deleted is found no more, and every other id finds what it found before.
  pub delete_tunnel-lookup :
      (id k : Text) (repo : AppRepository)
      → (delete_tunnel disk id repo).1 ≡ ok tt
      → tunnel (delete_tunnel disk id repo).0 k
        ≡ (if text_eq id k then err not_found else tunnel repo k)
  unfolding delete_tunnel tunnel
  delete_tunnel-lookup id k repo h =
      let (made, _) = commit-ok disk repo _ tt h in
      let (_, p) = >>-ok _ _ _ made in
      let new = ap (λ m. m.0) (persisted-ok disk _ _ p) in
      ap (λ s. ok_or (find_tunnel k s.tunnels) not_found) (sym new)
      ∙ ap (λ found. ok_or found not_found) (find-retain (λ item. item.id) k id repo.stored.tunnels)
      ∙ ok_or-none (text_eq id k) (find_tunnel k repo.stored.tunnels) not_found
