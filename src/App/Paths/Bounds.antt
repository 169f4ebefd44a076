-- ===== src/App/Paths/Bounds.antt =====
-- How many parts the labels of `parsePath` in mulery.go have.
use mathlib.Core.Path.{subst}
use wsp.Base.{
  ◌≢◌, ==_iff, ℕ, zero, suc, ◌+◌, ◌≤◌, ◌≡◌, refl, sym, ap, ◌∙◌, inl, inr, false, List, [], ◌∷◌,
  ◌++◌, Option, none, some, Bool-cases, Option-cases, ◌==◌, if◌then◌else◌, arith,
}
use wsp.App.Paths.{
  codes, slash, cut, split_n, join, same, is_later_version, api_label, label_of, label,
}

-- How many slashes a text has.
abbrev pub slashes : List ℕ → ℕ
slashes [] = 0
slashes (c ∷ s) = (if c == slash then 1 else 0) + slashes s

slashes-append : (s t : List ℕ) → slashes (s ++ t) ≡ slashes s + slashes t
slashes-append [] t = omega arith
slashes-append (c ∷ s) t = omega (arith, slashes-append s t)

-- What `cut` finds.
abbrev IsCut : List ℕ → Option (List ℕ × List ℕ) → Type 0
IsCut s none = slashes s ≡ 0
IsCut s (some (a, b)) = (slashes a ≡ 0) × (s ≡ a ++ slash ∷ b)

-- One more code point in front that is no slash.
longer-IsCut :
    (c : ℕ) (s : List ℕ) (o : Option (List ℕ × List ℕ))
    → (c == slash) ≡ false
    → IsCut s o
    → IsCut (c ∷ s) (elim o [ none ↦ none | some (before, behind) ↦ some (c ∷ before, behind) ])
longer-IsCut c s none miss h = rw miss (omega (arith, h))
longer-IsCut c s (some (a, b)) miss h = (rw miss (omega (arith, h.0)), ap (λ l. c ∷ l) h.1)

cut-IsCut : (s : List ℕ) → IsCut s (cut s)
cut-IsCut [] = refl
cut-IsCut (c ∷ s) = elim (Bool-cases (c == slash)) [
  | inl hit ↦ rw hit (refl, ap (λ d. d ∷ s) ((==_iff c slash).0 hit))
  | inr miss ↦ rw miss (longer-IsCut c s (cut s) miss (cut-IsCut s))
]

-- The first `n` parts have no slash.
abbrev Plain : ℕ → List (List ℕ) → Type 0
Plain zero l = Unit
Plain (suc n) [] = Unit
Plain (suc n) (x ∷ l) = (slashes x ≡ 0) × Plain n l

Plain-nil : (n : ℕ) → Plain n []
Plain-nil zero = tt
Plain-nil (suc n) = tt

split_n-Plain : (n : ℕ) (s : List ℕ) → Plain n (split_n (suc n) s)
unfolding split_n
split_n-Plain zero s = tt
split_n-Plain (suc n) s = elim (Option-cases (cut s)) [
  | inl e ↦ rw (e, split_n) (subst (IsCut s) e (cut-IsCut s), Plain-nil n)
  | inr ((a, b), e) ↦ rw (e, split_n) ((subst (IsCut s) e (cut-IsCut s)).0, split_n-Plain n b)
]

some_part : (n : ℕ) (s : List ℕ) → split_n (suc n) s ≢ []
unfolding split_n
some_part zero s = λ e. cc
some_part (suc n) s = elim (Option-cases (cut s)) [
  | inl e ↦ rw (e, split_n) (λ h. cc)
  | inr ((a, b), e) ↦ rw (e, split_n) (λ h. cc)
]

join-cons : (x : List ℕ) (l : List (List ℕ)) → l ≢ [] → join (x ∷ l) ≡ x ++ slash ∷ join l
join-cons x [] n = absurd (n refl)
join-cons x (y ∷ l) n = refl

-- A text is its parts, joined again.
join-split_n : (n : ℕ) (s : List ℕ) → join (split_n (suc n) s) ≡ s
unfolding split_n
join-split_n zero s = refl
join-split_n (suc n) s = elim (Option-cases (cut s)) [
  | inl e ↦ rw (e, split_n) refl
  | inr ((a, b), e) ↦
      rw (e, split_n)
        (join-cons a (split_n (suc n) b) (some_part n b)
          ∙ ap (λ l. a ++ slash ∷ l) (join-split_n n b)
          ∙ sym (subst (IsCut s) e (cut-IsCut s)).1)
]

-- Parts without slashes, joined.
slashes-join :
    (x y : List ℕ) (l : List (List ℕ))
    → slashes x ≡ 0
    → slashes (join (x ∷ y ∷ l)) ≡ suc (slashes (join (y ∷ l)))
slashes-join x y l plain = omega (arith, slashes-append x (slash ∷ join (y ∷ l)), plain)

version-plain :
    (d : List ℕ) → slashes d ≡ 0 → slashes (if is_later_version d then codes "1" else d) ≡ 0
version-plain d h = elim (Bool-cases (is_later_version d)) [ inl e ↦ rw e refl | inr e ↦ rw e h ]

-- The parts of a path, of which the first five have no slash, give a label with few slashes.
label_of-bounded :
    (path : List ℕ) (l : List (List ℕ)) → Plain 5 l → join l ≡ path → slashes (label_of path l) ≤ 4
unfolding label_of api_label
label_of-bounded path [] h e = omega arith
label_of-bounded path (a ∷ []) h e = omega arith
label_of-bounded path (a ∷ b ∷ rest) h e = elim (Bool-cases (same b (codes "api"))) [
  | inl api ↦ rw api (below rest h e)
  | inr other ↦ rw other (omega arith)
]
  where
    below :
        (rest : List (List ℕ))
        → Plain 5 (a ∷ b ∷ rest)
        → join (a ∷ b ∷ rest) ≡ path
        → slashes (api_label path a b rest) ≤ 4
    below [] (pa, (pb, _)) e = rw⁻¹ e (omega (arith, slashes-join a b [] pa, pb))
    below (c ∷ []) (pa, (pb, (pc, _))) e =
        rw⁻¹ e (omega (arith, slashes-join a b (c ∷ []) pa, slashes-join b c [] pb, pc))
    below (c ∷ d ∷ []) (pa, (pb, (pc, (pd, _)))) e = omega (
      arith,
      slashes-join a b (c ∷ d ∷ []) pa,
      slashes-join b c (d ∷ []) pb,
      slashes-join c d [] pc,
      pd,
    )
    below (c ∷ d ∷ f ∷ more) (pa, (pb, (pc, (pd, (pf, _))))) e =
        elim (Bool-cases (same c (codes "trigger"))) [
          | inl hit ↦ rw hit (
              omega (
                arith,
                slashes-join a b (c ∷ d ∷ []) pa,
                slashes-join b c (d ∷ []) pb,
                slashes-join c d [] pc,
                pd,
              ))
          | inr miss ↦ rw miss (
              let v = if is_later_version d then codes "1" else d in
              omega (
                arith,
                slashes-join a b (c ∷ v ∷ f ∷ []) pa,
                slashes-join b c (v ∷ f ∷ []) pb,
                slashes-join c v (f ∷ []) pc,
                slashes-join v f [] (version-plain d pd),
                pf,
              ))
        ]

-- No label has more than five parts, the empty one before the first slash among them: it has four
-- slashes at most, however long the path of the request is.
pub label-bounded : (path : List ℕ) → slashes (label path) ≤ 4
unfolding label
label-bounded path =
    label_of-bounded path (split_n 6 path) (split_n-Plain 5 path) (join-split_n 5 path)

-- The text behind `/api/triggers/command/` is kept in the label: any text without a slash makes a
-- label of its own.
pub triggers-kept :
    (s : List ℕ)
    → slashes s ≡ 0
    → label (codes "/api/triggers/command/" ++ s) ≡ codes "/api/triggers/command/" ++ s
unfolding label split_n label_of api_label
triggers-kept s plain = rw (uncut s plain) refl
  where
    uncut : (s : List ℕ) → slashes s ≡ 0 → cut s ≡ none
    uncut [] h = refl
    uncut (c ∷ s) h = elim (Bool-cases (c == slash)) [
      | inl hit ↦ absurd (ground (arith, hit, h))
      | inr miss ↦ rw (miss, uncut s (ground (arith, miss, h))) refl
    ]
