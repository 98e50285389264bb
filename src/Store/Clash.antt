-- ===== src/Store/Clash.antt =====
-- Lists in which no value clashes with one before it, as the checks of store.rs leave them.
use remote_deck.Base.{
  ◌≡◌, ◌⊎◌, inl, inr, Bool, true, false, List, [], ◌∷◌, ◌++◌, In, any, arith, sym,
}

-- No value clashes with one before it.
module _ {A : Type 0} (clash : A → A → Bool) where
  abbrev pub NoClash : List A → List A → Type 0
  NoClash before [] = Unit
  NoClash before (x ∷ xs) = (any (clash x) before ≡ false) × NoClash (before ++ x ∷ []) xs

  any-In : (x y : A) (ys : List A) → any (clash x) ys ≡ false → In y ys → clash x y ≡ false
  any-In x y [] h m = elim m [ ]
  any-In x y (z ∷ ys) h (inl e) = ground arith
  any-In x y (z ∷ ys) h (inr m) = ground (arith, any-In x y ys)

  In-before : (y z : A) (b : List A) → In y b → In y (b ++ z ∷ [])
  In-before y z [] m = elim m [ ]
  In-before y z (x ∷ b) (inl e) = inl e
  In-before y z (x ∷ b) (inr m) = inr (In-before y z b m)

  In-last : (y z : A) (b : List A) → z ≡ y → In y (b ++ z ∷ [])
  In-last y z [] e = inl e
  In-last y z (x ∷ b) e = inr (In-last y z b e)

  NoClash-before : (b xs : List A) (x y : A) → NoClash b xs → In x xs → In y b → clash x y ≡ false
  NoClash-before b [] x y h m k = elim m [ ]
  NoClash-before b (z ∷ xs) x y h (inl e) k = any-In x y b (rw (← e) h.0) k
  NoClash-before b (z ∷ xs) x y h (inr m) k =
      NoClash-before (b ++ z ∷ []) xs x y h.1 m (In-before y z b k)

  pub NoClash-In :
      (b xs : List A) (x y : A)
      → NoClash b xs
      → In x xs
      → In y xs
      → (x ≡ y) ⊎ ((clash x y ≡ false) ⊎ (clash y x ≡ false))
  NoClash-In b [] x y h m k = elim m [ ]
  NoClash-In b (z ∷ xs) x y h (inl e) (inl e') = inl cc
  NoClash-In b (z ∷ xs) x y h (inl e) (inr k) =
      inr (inr (NoClash-before (b ++ z ∷ []) xs y x h.1 k (In-last x z b e)))
  NoClash-In b (z ∷ xs) x y h (inr m) (inl e) =
      inr (inl (NoClash-before (b ++ z ∷ []) xs x y h.1 m (In-last y z b e)))
  NoClash-In b (z ∷ xs) x y h (inr m) (inr k) = NoClash-In (b ++ z ∷ []) xs x y h.1 m k

-- A key that two values share makes them clash, so they are the same value.
pub same-value {κ} :
    {A : Type 0} {K : Type κ} (clash : A → A → Bool) (key : A → K) (xs : List A)
    → ((x y : A) → key x ≡ key y → clash x y ≡ true)
    → NoClash clash [] xs
    → (x y : A) → In x xs
    → In y xs
    → key x ≡ key y
    → x ≡ y
same-value clash key xs clashes apart x y m k e = elim (NoClash-In clash [] xs x y apart m k) [
  | inl same ↦ same
  | inr (inl h) ↦ absurd (let t = clashes x y e in cc)
  | inr (inr h) ↦ absurd (let t = clashes y x (sym e) in cc)
]
