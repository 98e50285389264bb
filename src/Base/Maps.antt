-- ===== src/Base/Maps.antt =====
-- Maps from text, as association lists (`HashMap<String, V>`; its order is not used).
use Prim.Native.Nat.{◌+◌, ◌≤◌}
use mathlib.Core.Path.{◌≡◌, refl}
use mathlib.Core.Bool.{Bool, true}
use mathlib.Core.Option.{Option, none, some}
use mathlib.Core.List.{List, [], ◌∷◌}
use native.Mathlib.Omega.{arith}
use remote_deck.Base.Bools.{if◌then◌else◌, is_some}
use remote_deck.Base.Lists.{length}
use remote_deck.Base.Strings.{Text, text_eq, text_eq_iff, text_eq_refl}

abbrev pub Map {ℓ} : Type ℓ → Type ℓ
Map V = List (Text × V)

module _ {ℓ} {V : Type ℓ} where
  unfoldable pub get : Text → Map V → Option V
  get k [] = none
  get k ((j, v) ∷ m) = if text_eq j k then some v else get k m

  unfoldable pub insert : Text → V → Map V → Map V
  insert k v [] = (k, v) ∷ []
  insert k v ((j, w) ∷ m) = if text_eq j k then (k, v) ∷ m else (j, w) ∷ insert k v m

  unfoldable pub remove : Text → Map V → Map V
  remove k [] = []
  remove k ((j, w) ∷ m) = if text_eq j k then remove k m else (j, w) ∷ remove k m

  -- `HashMap::retain` on the values.
  unfoldable pub retain_values : (V → Bool) → Map V → Map V
  retain_values p [] = []
  retain_values p ((j, w) ∷ m) = if p w then (j, w) ∷ retain_values p m else retain_values p m

  -- For tests: every operation computes.
  unfoldable pub map_operations : V → Unit {0}
  unfolding get insert remove retain_values text_eq
  map_operations v = tt

  pub get-insert :
      (j k : Text) (v : V) (m : Map V)
      → get j (insert k v m) ≡ (if text_eq k j then some v else get j m)
  unfolding get insert
  get-insert j k v [] = refl
  get-insert j k v ((i, w) ∷ m) =
      ground (arith, text_eq_iff k j, text_eq_iff i k, text_eq_iff i j, get-insert j k v m)

  pub get-remove :
      (j k : Text) (m : Map V) → get j (remove k m) ≡ (if text_eq k j then none else get j m)
  unfolding get remove
  get-remove j k [] = ground arith
  get-remove j k ((i, w) ∷ m) =
      ground (arith, text_eq_iff k j, text_eq_iff i k, text_eq_iff i j, get-remove j k m)

  pub get-insert_self : (k : Text) (v : V) (m : Map V) → get k (insert k v m) ≡ some v
  get-insert_self k v m = simp (get-insert, text_eq_refl)

  pub get-remove_self : (k : Text) (m : Map V) → get k (remove k m) ≡ none
  get-remove_self k m = simp (get-remove, text_eq_refl)

  -- What `retain_values` leaves was there for no other key, and a value that passes stays.
  pub get-retain_values_keep :
      (p : V → Bool) (k : Text) (v : V) (m : Map V)
      → get k m ≡ some v
      → p v ≡ true
      → get k (retain_values p m) ≡ some v
  unfolding get retain_values
  get-retain_values_keep p k v [] e t = e
  get-retain_values_keep p k v ((i, w) ∷ m) e t = ground (arith, get-retain_values_keep p k v m)

  pub get-retain_values-none :
      (p : V → Bool) (k : Text) (m : Map V) → get k m ≡ none → get k (retain_values p m) ≡ none
  unfolding get retain_values
  get-retain_values-none p k [] e = e
  get-retain_values-none p k ((i, w) ∷ m) e = ground (arith, get-retain_values-none p k m)

  pub get-retain_values_holds :
      (p : V → Bool) (k : Text) (v : V) (m : Map V)
      → get k (retain_values p m) ≡ some v
      → p v ≡ true
  unfolding get retain_values
  get-retain_values_holds p k v [] e = cc
  get-retain_values_holds p k v ((i, w) ∷ m) e = ground (arith, get-retain_values_holds p k v m)

  pub length-insert-le : (k : Text) (v : V) (m : Map V) → length (insert k v m) ≤ length m + 1
  unfolding insert
  length-insert-le k v [] = omega arith
  length-insert-le k v ((i, w) ∷ m) = ground (arith, length-insert-le k v m)

  pub length-insert_old :
      (k : Text) (v : V) (m : Map V) → is_some (get k m) ≡ true → length (insert k v m) ≡ length m
  unfolding get insert
  length-insert_old k v [] h = cc
  length-insert_old k v ((i, w) ∷ m) h = ground (arith, length-insert_old k v m)

  pub length-remove-le : (k : Text) (m : Map V) → length (remove k m) ≤ length m
  unfolding remove
  length-remove-le k [] = omega arith
  length-remove-le k ((i, w) ∷ m) = ground (arith, length-remove-le k m)

  pub length-retain_values-le : (p : V → Bool) (m : Map V) → length (retain_values p m) ≤ length m
  unfolding retain_values
  length-retain_values-le p [] = omega arith
  length-retain_values-le p ((i, w) ∷ m) = ground (arith, length-retain_values-le p m)
