-- ===== src/App/Routes/Mux.antt =====
-- The choice of the mux among the patterns of `Start` in mulery.go.
use mathlib.Core.Path.{subst}
use wsp.Base.{
  sym, ◌++◌, ◌==◌, Option-cases, ◌≡◌, refl, Bool, true, false, [], ◌∷◌, Option, none, some,
  if◌then◌else◌, Bool-cases, inl, inr, arith,
}
use wsp.App.Paths.{codes, same}
use wsp.App.Upstreams.{Text}
use wsp.App.Routes.{
  Target, metrics, register, stats, handle_all, request, health, routes, has_prefix, cut_prefix,
  mux, longest,
}

pub same-eq : (s t : Text) → same s t ≡ true → s ≡ t
same-eq [] [] h = refl
same-eq [] (d ∷ t) h = cc
same-eq (c ∷ s) [] h = cc
same-eq (c ∷ s) (d ∷ t) h = ground (arith, h, same-eq s t)

-- The paths below the two trees.
abbrev pub tree_choice : Text → Option Target
tree_choice path =
    if has_prefix (codes "/request/") path
    then some request
    else if has_prefix (codes "/") path
    then some handle_all
    else none

-- The choice, written out.
abbrev pub choice : Text → Option Target
choice path =
    if same (codes "/metrics") path
    then some metrics
    else if same (codes "/register") path
    then some register
    else if same (codes "/stats") path
    then some stats
    else if same (codes "/request") path
    then some handle_all
    else if same (codes "/request/") path
    then some request
    else if same (codes "/health") path
    then some health
    else if same (codes "/") path
    then some handle_all
    else tree_choice path

else_if :
    (b : Bool) (t : Target) (x y : Option Target)
    → (elim (if b then some t else x) [ some u ↦ some u | none ↦ y ])
      ≡ (if b then some t else elim x [ some u ↦ some u | none ↦ y ])
else_if true t x y = refl
else_if false t x y = refl

longest-choice :
    (path : Text)
    → (elim (longest routes path) [ none ↦ none | some r ↦ some r.1 ]) ≡ tree_choice path
unfolding routes
longest-choice path = elim (Bool-cases (has_prefix (codes "/request/") path)) [
  | inl e ↦ elim (Bool-cases (has_prefix (codes "/") path)) [
    | inl f ↦ rw (e, f) refl
    | inr f ↦ rw (e, f) refl
  ]
  | inr e ↦ elim (Bool-cases (has_prefix (codes "/") path)) [
    | inl f ↦ rw (e, f) refl
    | inr f ↦ rw (e, f) refl
  ]
]

-- For every path the mux chooses the handler that the patterns of `Start` give it: the one of the
-- path itself, and else the tunnel below `/request/` and `HandleAll` below `/`.
pub mux-choice : (path : Text) → mux routes path ≡ choice path
unfolding mux routes
mux-choice path = simp (else_if, longest-choice path) refl

cut_prefix-eq : (p s t : Text) → cut_prefix p s ≡ some t → s ≡ p ++ t
cut_prefix-eq [] s t h = let e : s ≡ t = cc in e
cut_prefix-eq (c ∷ p) [] t h = cc
cut_prefix-eq (c ∷ p) (d ∷ s) t h = elim (Bool-cases (c == d)) [
  | inl e ↦ ground (arith, e, cut_prefix-eq p s t (rw e at h))
  | inr e ↦ let f : none ≡ some t = rw e at h in cc
]

pub cut_prefix-append : (p t : Text) → cut_prefix p (p ++ t) ≡ some t
cut_prefix-append [] t = refl
cut_prefix-append (c ∷ p) t = ground (arith, cut_prefix-append p t)

-- The paths for which a handler is chosen.
abbrev pub At : Target → Text → Type 0
At metrics path = path ≡ codes "/metrics"
At register path = path ≡ codes "/register"
At stats path = path ≡ codes "/stats"
At handle_all path = Unit {0}
At request path = (rest : Text) × (path ≡ codes "/request" ++ rest)
At health path = path ≡ codes "/health"

first :
    (path : Text) (b : Bool) (x : Option Target) (u t : Target)
    → (if b then some u else x) ≡ some t
    → (b ≡ true → At u path)
    → (x ≡ some t → At t path)
    → At t path
first path true x u t h here later = let e : u ≡ t = cc in subst (λ v. At v path) e (here refl)
first path false x u t h here later = later h

below_request : (path : Text) → has_prefix (codes "/request/") path ≡ true → At request path
below_request path h = elim (Option-cases (cut_prefix (codes "/request/") path)) [
  | inl e ↦ let f : false ≡ true = rw e at h in cc
  | inr (t, e) ↦ (codes "/" ++ t, cut_prefix-eq (codes "/request/") path t e)
]

pub choice-At : (path : Text) (t : Target) → choice path ≡ some t → At t path
choice-At path t h =
    first path (same (codes "/metrics") path) _ metrics t h (λ e. sym (same-eq _ path e))
      λ h.
        first path (same (codes "/register") path) _ register t h (λ e. sym (same-eq _ path e))
          λ h.
            first path (same (codes "/stats") path) _ stats t h (λ e. sym (same-eq _ path e))
              λ h.
                first path (same (codes "/request") path) _ handle_all t h (λ e. tt)
                  λ h.
                    first path (same (codes "/request/") path) _ request t h
                      (λ e. (codes "/", sym (same-eq _ path e)))
                      λ h.
                        first path (same (codes "/health") path) _ health t h
                          (λ e. sym (same-eq _ path e))
                          λ h.
                            first path (same (codes "/") path) _ handle_all t h (λ e. tt)
                              λ h.
                                first path (has_prefix (codes "/request/") path) _ request t h
                                  (below_request path)
                                  λ h.
                                    first path (has_prefix (codes "/") path) none handle_all t h
                                      (λ e. tt) λ h. cc

missed :
    {P : Type 0} (b : Bool) (u : Target) (x : Option Target)
    → (if b then some u else x) ≡ none
    → (x ≡ none → b ≡ false → P)
    → P
missed true u x h k = cc
missed false u x h k = k h refl

pub choice-none : (path : Text) → choice path ≡ none → has_prefix (codes "/") path ≡ false
choice-none path h = missed (same (codes "/metrics") path) metrics _ h λ h _.
    missed (same (codes "/register") path) register _ h λ h _.
      missed (same (codes "/stats") path) stats _ h λ h _.
        missed (same (codes "/request") path) handle_all _ h λ h _.
          missed (same (codes "/request/") path) request _ h λ h _.
            missed (same (codes "/health") path) health _ h λ h _.
              missed (same (codes "/") path) handle_all _ h λ h _.
                missed (has_prefix (codes "/request/") path) request _ h
                  λ h _. missed (has_prefix (codes "/") path) handle_all none h λ _ e. e

pub choice-below : (rest : Text) → choice (codes "/request/" ++ rest) ≡ some request
choice-below [] = refl
choice-below (c ∷ rest) = refl
