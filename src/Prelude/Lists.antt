-- ===== src/Prelude/Lists.antt =====
-- Lists measured by native numbers, predicates over lists, and the `if test: out.append(x)` idiom.
use Prim.Native.Nat.{ℕ, suc, ◌+◌}
use mathlib.Core.Path.{◌≡◌, refl}
use mathlib.Core.Bool.{Bool, true, false}
use mathlib.Core.List.{List, [], ◌∷◌, ◌++◌}
use native.Mathlib.Omega.{arith}

module _ {ℓ} {A : Type ℓ} where
  abbrev pub length : List A → ℕ
  length [] = 0
  length (_ ∷ xs) = suc (length xs)

  pub length-append : (xs ys : List A) → length (xs ++ ys) ≡ length xs + length ys
  length-append [] ys = omega arith
  length-append (x ∷ xs) ys = omega (arith, length-append xs ys)

  -- `bool(xs)` of a Python sequence.
  abbrev pub is_empty : List A → Bool
  is_empty [] = true
  is_empty (_ ∷ _) = false

  -- What `if test: out.append(x)` adds to `out`.
  abbrev pub when : Bool → A → List A
  when true x = x ∷ []
  when false x = []

  pub when-nil : (b : Bool) (x : A) → when b x ≡ [] → b ≡ false
  when-nil true x h = cc
  when-nil false x h = refl

  pub append-nil_left : (xs ys : List A) → xs ++ ys ≡ [] → xs ≡ []
  append-nil_left [] ys h = refl
  append-nil_left (x ∷ xs) ys h = cc

  pub append-nil_right : (xs ys : List A) → xs ++ ys ≡ [] → ys ≡ []
  append-nil_right [] ys h = h
  append-nil_right (x ∷ xs) ys h = cc

  -- A list of reasons is empty only if its first test fails and the rest is empty.
  pub when_append-nil :
      (b : Bool) (x : A) (ys : List A) → when b x ++ ys ≡ [] → (b ≡ false) × (ys ≡ [])
  when_append-nil true x ys h = cc
  when_append-nil false x ys h = (refl, h)

  pub append-both_nil : (xs ys : List A) → xs ≡ [] → ys ≡ [] → xs ++ ys ≡ []
  append-both_nil [] ys h k = k
  append-both_nil (x ∷ xs) ys h k = cc

  abbrev pub All {κ} : (A → Type κ) → List A → Type κ
  All P [] = Unit
  All P (x ∷ xs) = P x × All P xs

  pub All-append {κ} : (P : A → Type κ) (xs ys : List A) → All P xs → All P ys → All P (xs ++ ys)
  All-append P [] ys _ q = q
  All-append P (x ∷ xs) ys (p, ps) q = (p, All-append P xs ys ps q)
