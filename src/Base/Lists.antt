-- ===== src/Base/Lists.antt =====
-- Lists measured by native numbers, and membership by recursion, which computes to cases.
use Prim.Native.Nat.{ℕ, suc, ◌+◌}
use mathlib.Core.Path.{◌≡◌, sym}
use mathlib.Core.Logic.{◌⊎◌, inl, inr}
use mathlib.Core.List.{List, [], ◌∷◌, ◌++◌}
use native.Mathlib.Omega.{arith}

module _ {ℓ} {A : Type ℓ} where
  abbrev pub length : List A → ℕ
  length [] = 0
  length (x ∷ xs) = suc (length xs)

  pub length-append : (xs ys : List A) → length (xs ++ ys) ≡ length xs + length ys
  length-append [] ys = omega arith
  length-append (x ∷ xs) ys = omega (arith, length-append xs ys)

  abbrev pub Every {κ} : (A → Type κ) → List A → Type κ
  Every P [] = Unit
  Every P (x ∷ xs) = P x × Every P xs

module _ {A : Type 0} where
  abbrev pub In : A → List A → Type 0
  In a [] = ⊥
  In a (x ∷ xs) = (a ≡ x) ⊎ In a xs

  pub In-append_left : (a : A) (xs ys : List A) → In a xs → In a (xs ++ ys)
  In-append_left a [] ys h = elim h [ ]
  In-append_left a (x ∷ xs) ys (inl e) = inl e
  In-append_left a (x ∷ xs) ys (inr h) = inr (In-append_left a xs ys h)

  pub In-append_right : (a : A) (xs ys : List A) → In a ys → In a (xs ++ ys)
  In-append_right a [] ys h = h
  In-append_right a (x ∷ xs) ys h = inr (In-append_right a xs ys h)

  pub In-append_cases : (a : A) (xs ys : List A) → In a (xs ++ ys) → In a xs ⊎ In a ys
  In-append_cases a [] ys h = inr h
  In-append_cases a (x ∷ xs) ys (inl e) = inl (inl e)
  In-append_cases a (x ∷ xs) ys (inr h) = elim (In-append_cases a xs ys h) [
    | inl l ↦ inl (inr l)
    | inr r ↦ inr r
  ]

  -- No element stands twice.
  abbrev pub Distinct : List A → Type 0
  Distinct [] = Unit
  Distinct (x ∷ xs) = (In x xs → ⊥) × Distinct xs

  -- An element in the middle of a list without repetitions stands on neither side of it.
  pub Distinct-middle_left :
      (xs : List A) (c : A) (ys : List A) → Distinct (xs ++ c ∷ ys) → In c xs → ⊥
  Distinct-middle_left [] c ys d h = elim h [ ]
  Distinct-middle_left (x ∷ xs) c ys (d, ds) (inl e) =
      d (In-append_right x xs (c ∷ ys) (inl (sym e)))
  Distinct-middle_left (x ∷ xs) c ys (d, ds) (inr h) = Distinct-middle_left xs c ys ds h

  pub Distinct-middle_right :
      (xs : List A) (c : A) (ys : List A) → Distinct (xs ++ c ∷ ys) → In c ys → ⊥
  Distinct-middle_right [] c ys (d, ds) h = d h
  Distinct-middle_right (x ∷ xs) c ys (d, ds) h = Distinct-middle_right xs c ys ds h

  pub In-remove :
      (a : A) (xs : List A) (c : A) (ys : List A) → In a (xs ++ ys) → In a (xs ++ c ∷ ys)
  In-remove a xs c ys h = elim (In-append_cases a xs ys h) [
    | inl l ↦ In-append_left a xs (c ∷ ys) l
    | inr r ↦ In-append_right a xs (c ∷ ys) (inr r)
  ]

  pub Distinct-remove :
      (xs : List A) (c : A) (ys : List A) → Distinct (xs ++ c ∷ ys) → Distinct (xs ++ ys)
  Distinct-remove [] c ys (d, ds) = ds
  Distinct-remove (x ∷ xs) c ys (d, ds) =
      (λ h. d (In-remove x xs c ys h), Distinct-remove xs c ys ds)

  pub In-middle :
      (a : A) (xs : List A) (c : A) (ys : List A) → In a (xs ++ c ∷ ys) → (a ≡ c) ⊎ In a (xs ++ ys)
  In-middle a [] c ys h = h
  In-middle a (x ∷ xs) c ys (inl e) = inr (inl e)
  In-middle a (x ∷ xs) c ys (inr h) = elim (In-middle a xs c ys h) [
    | inl e ↦ inl e
    | inr r ↦ inr (inr r)
  ]

  pub Distinct-snoc : (xs : List A) (c : A) → Distinct xs → ¬ In c xs → Distinct (xs ++ c ∷ [])
  Distinct-snoc [] c d n = ((λ h. h), tt)
  Distinct-snoc (x ∷ xs) c (d, ds) n = (
    λ h. elim (In-append_cases x xs (c ∷ []) h) [
      | inl old ↦ d old
      | inr new ↦ elim new [ inl e ↦ n (inl (sym e)) | inr none_left ↦ none_left ]
    ],
    Distinct-snoc xs c ds (λ h. n (inr h)),
  )

  -- What holds everywhere holds of an element in the middle, and still after it has changed.
  pub Every-at {κ} :
      (P : A → Type κ) (xs : List A) (a : A) (ys : List A) → Every P (xs ++ a ∷ ys) → P a
  Every-at P [] a ys h = h.0
  Every-at P (x ∷ xs) a ys h = Every-at P xs a ys h.1

  pub Every-replace {κ} :
      (P : A → Type κ) (xs : List A) (a b : A) (ys : List A)
      → Every P (xs ++ a ∷ ys)
      → P b
      → Every P (xs ++ b ∷ ys)
  Every-replace P [] a b ys h p = (p, h.1)
  Every-replace P (x ∷ xs) a b ys h p = (h.0, Every-replace P xs a b ys h.1 p)

  pub Every-snoc {κ} :
      (P : A → Type κ) (xs : List A) (a : A) → Every P xs → P a → Every P (xs ++ a ∷ [])
  Every-snoc P [] a h p = (p, tt)
  Every-snoc P (x ∷ xs) a h p = (h.0, Every-snoc P xs a h.1 p)

  pub length-middle :
      (xs : List A) (a : A) (ys : List A) → length (xs ++ a ∷ ys) ≡ suc (length (xs ++ ys))
  length-middle [] a ys = omega arith
  length-middle (x ∷ xs) a ys = omega (arith, length-middle xs a ys)
