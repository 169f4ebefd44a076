-- ===== src/App/Logs/Format.antt =====
-- The quotation marks of the format that logging.go gives to the access log.
use wsp.Base.{
  ◌||◌, ℕ, ◌+◌, ◌%◌, ◌≡◌, refl, ap, Bool, true, false, List, [], ◌∷◌, ◌++◌, ◌==◌, if◌then◌else◌,
  Bool-cases, inl, inr, arith,
}
use wsp.App.Paths.{codes, same}
use wsp.App.Upstreams.{Text}
use wsp.App.Logs.{other_field, value_of, field, other_fields, quoted_id, apache_log_format}

abbrev pub quotes : Text → ℕ
quotes [] = 0
quotes (c ∷ s) = (if c == b'"' then 1 else 0) + quotes s

pub quotes-append : (s t : Text) → quotes (s ++ t) ≡ quotes s + quotes t
quotes-append [] t = omega arith
quotes-append (c ∷ s) t = omega (arith, quotes-append s t)

-- No header of the configuration has a quotation mark.
abbrev pub Plain : List (Text × Text) → Type 0
Plain [] = Unit
Plain (entry ∷ m) = (quotes entry.0 ≡ 0) × (quotes entry.1 ≡ 0) × Plain m

value_of-Plain : (key : Text) (m : List (Text × Text)) → Plain m → quotes (value_of key m) ≡ 0
value_of-Plain key [] p = refl
value_of-Plain key (entry ∷ m) p = elim (Bool-cases (same entry.0 key)) [
  | inl e ↦ rw e p.1
  | inr e ↦ rw e (value_of-Plain key m p.2)
]

quotes-field : (s : Text) → quotes s ≡ 0 → quotes (field s) ≡ 0
quotes-field [] h = refl
quotes-field (c ∷ s) h = omega (arith, h, quotes-append (c ∷ s) (codes "}i"))

quotes-quoted_id : (s : Text) → quotes s ≡ 0 → quotes (quoted_id s) % 2 ≡ 0
quotes-quoted_id [] h = refl
quotes-quoted_id (c ∷ s) h = omega (arith, h, quotes-append (c ∷ s) (codes "}i\""))

quotes-other_field :
    (entry : Text × Text) → quotes entry.0 ≡ 0 → quotes entry.1 ≡ 0 → quotes (other_field entry) ≡ 2
quotes-other_field entry p q = simp (quotes-append, p, q) refl

even-append : (s t : Text) → quotes s % 2 ≡ 0 → quotes t % 2 ≡ 0 → quotes (s ++ t) % 2 ≡ 0
even-append s t h k = omega (arith, h, k, quotes-append s t)

quotes-other_fields : (m : List (Text × Text)) → Plain m → quotes (other_fields m) % 2 ≡ 0
unfolding other_fields
quotes-other_fields [] p = refl
quotes-other_fields (entry ∷ m) p =
    even-append (if b then [] else other_field entry) (other_fields m) (here b)
      (quotes-other_fields m p.2)
  where
    b : Bool
    b = same entry.0 (codes "uid") || same entry.0 (codes "name")

    here : (b : Bool) → quotes (if b then [] else other_field entry) % 2 ≡ 0
    here true = refl
    here false = ap (λ n. n % 2) (quotes-other_field entry p.0 p.1)

-- When no header of the configuration has a quotation mark, every quotation of the format is
-- closed.
quotes-apache_log_format :
    (id_header : Text) (headers : List (Text × Text))
    → quotes id_header ≡ 0
    → Plain headers
    → quotes (apache_log_format id_header headers) % 2 ≡ 0
unfolding apache_log_format
quotes-apache_log_format id_header [] h p =
    even-append (codes "%h - - %t \"%r\" %>s %b ") _ refl
      (even-append (quoted_id id_header) _ (quotes-quoted_id id_header h) refl)
quotes-apache_log_format id_header (entry ∷ m) h p =
    simp
      (
        quotes-append,
        quotes-field (value_of (codes "uid") (entry ∷ m))
            (value_of-Plain (codes "uid") (entry ∷ m) p),
        quotes-field (value_of (codes "name") (entry ∷ m))
            (value_of-Plain (codes "name") (entry ∷ m) p),
        quotes-field id_header h,
      )
      (omega (arith, quotes-other_fields (entry ∷ m) p))
