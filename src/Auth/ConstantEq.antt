-- ===== src/Auth/ConstantEq.antt =====
-- `constant_eq` of auth.rs: the fold over all bytes decides equality.
use Prim.Native.Nat.{bit_or, bit_xor, bit_or-bitwise, bit_xor-bitwise, digits, differ}
use mathlib.Core.List.{zip, foldl}
use remote_deck.Base.{
  ℕ, zero, suc, ◌/◌, ◌%◌, ◌≤◌, max, ◌≡◌, refl, ◌∙◌, sym, ◌↔◌, true, false, List, [], ◌∷◌, arith,
  Text, not, ap, Bool-cases, inl, inr, if◌then◌else◌, length, as_bytes, ◌==◌, ==_iff,
}
use remote_deck.Auth.Defs.{constant_eq}

differ-eq-zero : (x y : ℕ) → differ x y ≡ 0 → x ≡ y
differ-eq-zero zero y h = sym h
differ-eq-zero (suc x) zero h = h
differ-eq-zero (suc x) (suc y) h = omega (arith, differ-eq-zero x y h)

differ_self : (x : ℕ) → differ x x ≡ 0
differ_self zero = refl
differ_self (suc x) = differ_self x

abbrev xor_digits : ℕ → ℕ → ℕ → ℕ
xor_digits n a b = digits (λ b. b) differ n a b

abbrev or_digits : ℕ → ℕ → ℕ → ℕ
or_digits n a b = digits (λ b. b) max n a b

xor_digits-eq-zero : (n a b : ℕ) → a ≤ n → xor_digits n a b ≡ 0 → a ≡ b
xor_digits-eq-zero zero zero b h e = sym e
xor_digits-eq-zero zero (suc a) b h e = absurd (omega arith)
xor_digits-eq-zero (suc n) zero b h e = sym e
xor_digits-eq-zero (suc n) (suc a) b h e =
    let halves = xor_digits-eq-zero n (suc a / 2) (b / 2) (omega arith) (omega arith) in
    let last = differ-eq-zero (suc a % 2) (b % 2) (omega arith) in omega arith

xor_digits_self : (n a : ℕ) → a ≤ n → xor_digits n a a ≡ 0
xor_digits_self zero zero h = refl
xor_digits_self zero (suc a) h = absurd (omega arith)
xor_digits_self (suc n) zero h = refl
xor_digits_self (suc n) (suc a) h =
    omega (arith, xor_digits_self n (suc a / 2) (omega arith), differ_self (suc a % 2))

or_digits-eq-zero : (n a b : ℕ) → a ≤ n → or_digits n a b ≡ 0 → (a ≡ 0) × (b ≡ 0)
or_digits-eq-zero zero zero b h e = (refl, e)
or_digits-eq-zero zero (suc a) b h e = absurd (omega arith)
or_digits-eq-zero (suc n) zero b h e = (refl, e)
or_digits-eq-zero (suc n) (suc a) b h e =
    let halves = or_digits-eq-zero n (suc a / 2) (b / 2) (omega arith) (omega arith) in omega arith

bit_xor-eq-zero_iff : (a b : ℕ) → (bit_xor a b ≡ 0) ↔ (a ≡ b)
bit_xor-eq-zero_iff a b = (
  λ e. xor_digits-eq-zero a a b (omega arith) (sym (bit_xor-bitwise a b) ∙ e),
  λ e. rw (← e) (bit_xor-bitwise a a ∙ xor_digits_self a a (omega arith)),
)

bit_or-eq-zero_iff : (a b : ℕ) → (bit_or a b ≡ 0) ↔ ((a ≡ 0) × (b ≡ 0))
bit_or-eq-zero_iff a b = (
  λ e. or_digits-eq-zero a a b (omega arith) (sym (bit_or-bitwise a b) ∙ e),
  λ e. rw (e.0, e.1) (bit_or-bitwise 0 0),
)

abbrev difference : ℕ → List ℕ → List ℕ → ℕ
difference acc xs ys = foldl (λ acc pair. bit_or acc (bit_xor pair.0 pair.1)) acc (zip xs ys)

difference-eq-zero_iff :
    (acc : ℕ) (xs ys : List ℕ)
    → length xs ≡ length ys
    → (difference acc xs ys ≡ 0) ↔ ((acc ≡ 0) × (xs ≡ ys))
unfolding zip
difference-eq-zero_iff acc [] [] e = ground arith
difference-eq-zero_iff acc [] (y ∷ ys) e = absurd (omega arith)
difference-eq-zero_iff acc (x ∷ xs) [] e = absurd (omega arith)
difference-eq-zero_iff acc (x ∷ xs) (y ∷ ys) e = ground (
  arith,
  difference-eq-zero_iff (bit_or acc (bit_xor x y)) xs ys (omega arith),
  bit_or-eq-zero_iff acc (bit_xor x y),
  bit_xor-eq-zero_iff x y,
)

fold_iff :
    (xs ys : List ℕ)
    → ((if not (length xs == length ys) then false else difference 0 xs ys == 0) ≡ true) ↔ (xs ≡ ys)
fold_iff xs ys = elim (Bool-cases (length xs == length ys)) [
  | inl e ↦ ground (arith, difference-eq-zero_iff 0 xs ys ((==_iff (length xs) (length ys)).0 e))
  | inr e ↦ ground (arith, ap length {x = xs} {y = ys})
]

-- `constant_eq` answers true exactly for texts with the same bytes.
pub constant_eq_iff :
    (left right : Text) → (constant_eq left right ≡ true) ↔ (as_bytes left ≡ as_bytes right)
unfolding constant_eq
constant_eq_iff left right = fold_iff (as_bytes left) (as_bytes right)
