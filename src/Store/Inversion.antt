-- ===== src/Store/Inversion.antt =====
-- Inversion of the steps of the operations of store.rs.
use remote_deck.Base.{
  ◌≡◌, refl, inl, inr, Bool, true, false, Option, none, some, List, [], ◌∷◌, In, retain, Bool-cases,
  ok, err, ◌≢◌, ◌&&◌, not, Text, any, text_eq, text_eq_iff, arith, >>-ok, fail_if, ok_or,
  ok-injective, if◌then◌else◌, ap, subst,
}
use remote_deck.Model.{AppError, AppResult, PersistedState}
use remote_deck.Store.Persisted.{as_state_error}
use remote_deck.Store.Repository.{AppRepository, write_state, commit, persisted}

pub fail_if-ok :
    (b : Bool) (e : AppError) → ◌≡◌ {A = AppResult (Unit {0})} (fail_if b e) (ok tt) → b ≡ false
fail_if-ok true e h = cc
fail_if-ok false e h = refl

pub as_state_error-ok : (r : AppResult (Unit {0})) → as_state_error r ≡ ok tt → r ≡ ok tt
as_state_error-ok (ok a) h = h
as_state_error-ok (err e) h = cc

pub ok_or-ok :
    {A : Type 0} (o : Option A) (e : AppError) (a : A)
    → ◌≡◌ {A = AppResult A} (ok_or o e) (ok a)
    → o ≡ some a
ok_or-ok none e a h = absurd cc
ok_or-ok (some b) e a h = ap some (ok-injective h)

pub retain-keep :
    {A : Type 0} (p : A → Bool) (a : A) (xs : List A) → In a xs → p a ≡ true → In a (retain p xs)
retain-keep p a [] m h = elim m [ ]
retain-keep p a (x ∷ xs) (inl e) h = rw (e, h) (inl refl)
retain-keep p a (x ∷ xs) (inr m) h = elim (Bool-cases (p x)) [
  | inl k ↦ rw k (inr (retain-keep p a xs m h))
  | inr k ↦ rw k (retain-keep p a xs m h)
]

pub retain-In :
    {A : Type 0} (p : A → Bool) (a : A) (xs : List A) → In a (retain p xs) → In a xs × (p a ≡ true)
retain-In p a [] m = elim m [ ]
retain-In p a (x ∷ xs) m = elim (Bool-cases (p x)) [
  | inl k ↦ elim (subst (λ b. In a (if b then x ∷ retain p xs else retain p xs)) k m) [
    | inl e ↦ (inl e, rw (← e) k)
    | inr n ↦ let (i, h) = retain-In p a xs n in (inr i, h)
  ]
  | inr k ↦
      let (i, h) =
        retain-In p a xs (subst (λ b. In a (if b then x ∷ retain p xs else retain p xs)) k m) in
      (inr i, h)
]

pub any-none :
    {A : Type 0} (p : A → Bool) (a : A) (xs : List A) → any p xs ≡ false → In a xs → p a ≡ false
any-none p a [] h m = elim m [ ]
any-none p a (x ∷ xs) h (inl e) = ground arith
any-none p a (x ∷ xs) h (inr m) = ground (arith, any-none p a xs)

pub and-false : (a b : Bool) → (a && b) ≡ false → a ≡ true → b ≡ false
and-false a b h k = ground arith

pub not-equal : (a b : Text) → not (text_eq a b) ≡ true → a ≢ b
not-equal a b h e = let t = (text_eq_iff a b).1 e in absurd (ground arith)

pub equal-not : (a b : Text) → a ≢ b → not (text_eq a b) ≡ true
equal-not a b h = elim (Bool-cases (text_eq a b)) [
  | inl e ↦ absurd (h ((text_eq_iff a b).0 e))
  | inr e ↦ rw e refl
]

module _ (disk : PersistedState → AppResult (Unit {0})) where
  pub commit-ok :
      {A : Type 0} (repo : AppRepository) (r : AppResult (PersistedState × A)) (a : A)
      → (commit disk repo r).1 ≡ ok a
      → (r ≡ ok ((commit disk repo r).0.stored, a))
        × ((commit disk repo r).0.deleting_hosts ≡ repo.deleting_hosts)
  commit-ok repo (ok (s, b)) a h = (ap (λ c. ok (s, c)) (ok-injective h), refl)
  commit-ok repo (err e) a h = absurd cc

  pub persisted-ok :
      {A : Type 0} (made out : PersistedState × A) → persisted disk made ≡ ok out → made ≡ out
  persisted-ok made out h = let (_, k) = >>-ok (write_state disk made.0) _ out h in ok-injective k
