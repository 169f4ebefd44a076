-- ===== src/Base/Keys.antt =====
-- Lists of entries that stand for Go maps: no key twice, and the order without meaning.
use Prim.Native.String.{String}
use text.Mathlib.Text.{◌==◌ as str_eq}
use text.Mathlib.TextEquality.{eq_iff}
use mathlib.Core.List.{List, [], ◌∷◌, Permᴰ}
use mathlib.Core.Path.{◌≡◌, refl, sym, ap, ◌∙◌, subst}
use mathlib.Core.Logic.{◌⊎◌, inl, inr, ◌≢◌}
use native.Mathlib.Omega.{arith}
use wsp.Base.Tests.{Bool-cases}
use wsp.Base.Lists.{In, Distinct}
use wsp.Base.Maps.{at, store}

In-cons : (k x : String) (l : List String) → In k (x ∷ l) → (k ≡ x) ⊎ In k l
In-cons k x l h = h

module _ {V : Type 0} where
  abbrev pub keys : List (String × V) → List String
  keys [] = []
  keys (e ∷ m) = e.0 ∷ keys m

  -- As in a Go map, no key stands twice.
  abbrev pub IsMap : List (String × V) → Type 0
  IsMap m = Distinct (keys m)

  In-store :
      (m : List (String × V)) (key k : String) (v : V)
      → In k (keys (store m key v))
      → (k ≡ key) ⊎ In k (keys m)
  unfolding store
  In-store [] key k v (inl e) = inl e
  In-store [] key k v (inr none_left) = absurd none_left
  In-store (e ∷ m) key k v h = elim (Bool-cases (str_eq e.0 key)) [
    | inl hit ↦ inr (rw hit at h)
    | inr miss ↦ elim (In-cons k e.0 _ (rw miss at h)) [
      | inl first ↦ inr (inl first)
      | inr later ↦ elim (In-store m key k v later) [ inl g ↦ inl g | inr g ↦ inr (inr g) ]
    ]
  ]

  pub store-IsMap : (m : List (String × V)) (key : String) (v : V) → IsMap m → IsMap (store m key v)
  unfolding store
  store-IsMap [] key v d = ((λ h. h), tt)
  store-IsMap (e ∷ m) key v (new, d) = elim (Bool-cases (str_eq e.0 key)) [
    | inl hit ↦ rw hit (new, d)
    | inr miss ↦ rw miss (
      λ h. elim (In-store m key e.0 v h) [
        | inl same ↦ ground (arith, eq_iff e.0 key)
        | inr old ↦ new old
      ],
      store-IsMap m key v d,
    )
  ]

  -- The order of the entries does not matter.
  In-reordered :
      {xs ys : List (String × V)} (k : String) → Permᴰ xs ys → In k (keys ys) → In k (keys xs)
  In-reordered k Permᴰ.nil h = h
  In-reordered k (Permᴰ.cons e p) (inl f) = inl (f ∙ ap (λ (x : String × V). x.0) (sym e))
  In-reordered k (Permᴰ.cons e p) (inr h) = inr (In-reordered k p h)
  In-reordered k (Permᴰ.swap e f) (inl g) = inr (inl (g ∙ ap (λ (x : String × V). x.0) (sym f)))
  In-reordered k (Permᴰ.swap e f) (inr (inl g)) = inl (g ∙ ap (λ (x : String × V). x.0) (sym e))
  In-reordered k (Permᴰ.swap e f) (inr (inr h)) = inr (inr h)
  In-reordered k (Permᴰ.trans p q) h = In-reordered k p (In-reordered k q h)

  pub IsMap-reordered : {xs ys : List (String × V)} → Permᴰ xs ys → IsMap xs → IsMap ys
  IsMap-reordered Permᴰ.nil d = d
  IsMap-reordered (Permᴰ.cons {a} {b} {l₁ = xs} {l₂ = ys} e p) (new, d) =
      subst (λ (c : String × V). IsMap (c ∷ ys)) e
        (λ h. new (In-reordered a.0 p h), IsMap-reordered p d)
  IsMap-reordered (Permᴰ.swap {a} {b} {a'} {b'} {l} e f) (new, (new', d)) =
      subst (λ (c : String × V). IsMap (a' ∷ c ∷ l)) e
        (subst (λ (c : String × V). IsMap (c ∷ a ∷ l)) f
          (
            λ h. elim h [ inl g ↦ new (inl (sym g)) | inr later ↦ new' later ],
            (λ h. new (inr h), d),
          ))
  IsMap-reordered (Permᴰ.trans p q) d = IsMap-reordered q (IsMap-reordered p d)

  -- A look-up does not depend on the order.
  at-swap :
      (a b : String × V) (l : List (String × V)) (k : String)
      → a.0 ≢ b.0
      → at (a ∷ b ∷ l) k ≡ at (b ∷ a ∷ l) k
  unfolding at
  at-swap a b l k n = ground (arith, eq_iff a.0 k, eq_iff b.0 k, n)

  at-cons :
      (a : String × V) (xs ys : List (String × V)) (k : String)
      → at xs k ≡ at ys k
      → at (a ∷ xs) k ≡ at (a ∷ ys) k
  unfolding at
  at-cons a xs ys k e = rw e refl

  pub at-reordered :
      {xs ys : List (String × V)} (k : String) → Permᴰ xs ys → IsMap xs → at xs k ≡ at ys k
  at-reordered k Permᴰ.nil d = refl
  at-reordered k (Permᴰ.cons {a} {b} {l₁ = xs} {l₂ = ys} e p) (new, d) =
      subst (λ (c : String × V). at (a ∷ xs) k ≡ at (c ∷ ys) k) e
        (at-cons a xs ys k (at-reordered k p d))
  at-reordered k (Permᴰ.swap {a} {b} {a'} {b'} {l} e f) (new, (new', d)) =
      subst (λ (c : String × V). at (a ∷ b ∷ l) k ≡ at (a' ∷ c ∷ l) k) e
        (subst (λ (c : String × V). at (a ∷ b ∷ l) k ≡ at (c ∷ a ∷ l) k) f
          (at-swap a b l k (λ g. new (inl g))))
  at-reordered k (Permᴰ.trans p q) d = at-reordered k p d ∙ at-reordered k q (IsMap-reordered p d)
