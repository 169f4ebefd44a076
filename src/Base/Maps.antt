-- ===== src/Base/Maps.antt =====
-- Go's maps with text keys, as lists of entries in the order of insertion.
use Prim.Native.String.{String}
use Prim.Native.Nat.{ℕ, ◌+◌}
use mathlib.Core.Path.{◌≡◌, refl, subst}
use mathlib.Core.Bool.{false}
use mathlib.Core.Logic.{◌≢◌, inl, inr}
use mathlib.Core.Option.{Option, none, some}
use mathlib.Core.List.{List, [], ◌∷◌}
use native.Mathlib.Omega.{arith}
use text.Mathlib.Text.{◌==◌ as str_eq}
use text.Mathlib.TextEquality.{eq_iff}
use text.Mathlib.TextPositions.{eq_refl}
use wsp.Base.Tests.{◌==◌, if◌then◌else◌, Bool-cases}

module _ {ℓ} {V : Type ℓ} where
  -- `m[key]`, where `none` stands for the zero value of a missing key.
  unfoldable pub at : List (String × V) → String → Option V
  at [] key = none
  at (entry ∷ rest) key = if str_eq entry.0 key then some entry.1 else at rest key

  -- `m[key] = v`
  unfoldable pub store : List (String × V) → String → V → List (String × V)
  store [] key v = (key, v) ∷ []
  store (entry ∷ rest) key v =
      if str_eq entry.0 key then (entry.0, v) ∷ rest else entry ∷ store rest key v

  pub at-store_self :
      (m : List (String × V)) (key : String) (v : V) → at (store m key v) key ≡ some v
  unfolding at store
  at-store_self [] key v = rw (eq_refl key) refl
  at-store_self (entry ∷ rest) key v = elim (Bool-cases (str_eq entry.0 key)) [
    | inl e ↦ rw (e, e) refl
    | inr e ↦ rw (e, e) (at-store_self rest key v)
  ]

  pub at-store_ne :
      (m : List (String × V)) (key other : String) (v : V)
      → key ≢ other
      → at (store m key v) other ≡ at m other
  unfolding at store
  at-store_ne [] key other v n = ground (arith, eq_iff key other)
  at-store_ne (entry ∷ rest) key other v n =
      ground (arith, eq_iff entry.0 key, eq_iff entry.0 other, at-store_ne rest key other v n)

module _ {V : Type 0} where
  -- `P` holds of every value.
  abbrev pub AllAt : (V → Type 0) → List (String × V) → Type 0
  AllAt P [] = Unit
  AllAt P (entry ∷ rest) = P entry.1 × AllAt P rest

  pub AllAt-store :
      (P : V → Type 0) (m : List (String × V)) (key : String) (v : V)
      → AllAt P m
      → P v
      → AllAt P (store m key v)
  unfolding store
  AllAt-store P [] key v h p = (p, tt)
  AllAt-store P (entry ∷ rest) key v (h, hs) p = elim (Bool-cases (str_eq entry.0 key)) [
    | inl e ↦ rw e (p, hs)
    | inr e ↦ rw e (h, AllAt-store P rest key v hs p)
  ]

  pub AllAt-at :
      (P : V → Type 0) (m : List (String × V)) (key : String) (v : V)
      → AllAt P m
      → at m key ≡ some v
      → P v
  unfolding at
  AllAt-at P [] key v h e = cc
  AllAt-at P (entry ∷ rest) key v (h, hs) e = elim (Bool-cases (str_eq entry.0 key)) [
    | inl hit ↦
        let same : some entry.1 ≡ some v = rw hit at e in
        let value : entry.1 ≡ v = cc in subst P value h
    | inr miss ↦ AllAt-at P rest key v hs (rw miss at e)
  ]

-- A Go `map[int]int`.
unfoldable pub count_at : List (ℕ × ℕ) → ℕ → ℕ
count_at [] key = 0
count_at (entry ∷ rest) key = if entry.0 == key then entry.1 else count_at rest key

-- `m[key] += n`
unfoldable pub add_at : ℕ → ℕ → List (ℕ × ℕ) → List (ℕ × ℕ)
add_at key n [] = (key, n) ∷ []
add_at key n (entry ∷ rest) =
    if entry.0 == key then (entry.0, entry.1 + n) ∷ rest else entry ∷ add_at key n rest

pub different : (a b : String) → str_eq a b ≡ false → a ≢ b
different a b other same = let hit = (eq_iff a b).1 same in absurd (ground (arith, hit, other))
