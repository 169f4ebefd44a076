-- ===== src/App/Upstreams/Print.antt =====
-- `String` of upstreams.go, with `show` for the text of a network.
use mathlib.Core.List.{append_assoc, append-nil}
use wsp.Base.{ℕ, ◌≡◌, sym, ap, ◌∙◌, List, [], ◌∷◌, ◌++◌, Option, none, some}
use wsp.App.Paths.{codes}
use wsp.App.Upstreams.{Text}

regroup : (o k t f : Text) → ((o ++ k) ++ t) ++ f ≡ o ++ ((k ++ t) ++ f)
regroup o k t f = simp (append_assoc)

module _ {Net : Type 0} (show : Net → Text) where
  -- What the loop adds for an entry, behind the comma.
  abbrev pub entry_text : Text × Option Net → Text
  entry_text (u, some n) = show n ++ codes " (input: " ++ u ++ codes ")"
  entry_text (u, none) = u ++ codes " (ignored)"

  abbrev comma : Text → Text
  comma [] = []
  comma (c ∷ output) = (c ∷ output) ++ codes ", "

  unfoldable pub print_loop : List (Text × Option Net) → Text → Text
  print_loop [] output = output
  print_loop (e ∷ es) output = print_loop es (comma output ++ entry_text e)

  -- `String`
  unfoldable pub to_string : List (Text × Option Net) → Text
  to_string [] = codes "(none)"
  to_string (e ∷ es) = print_loop (e ∷ es) []

  -- The entries behind the first, each with a comma in front.
  abbrev following : List (Text × Option Net) → Text
  following [] = []
  following (e ∷ es) = codes ", " ++ entry_text e ++ following es

  print_loop-cons :
      (es : List (Text × Option Net)) (c : ℕ) (output : Text)
      → print_loop es (c ∷ output) ≡ (c ∷ output) ++ following es
  unfolding print_loop
  print_loop-cons [] c output = ap (c ∷◌) (sym (append-nil output))
  print_loop-cons (e ∷ es) c output =
      print_loop-cons es c ((output ++ codes ", ") ++ entry_text e)
      ∙ ap (c ∷◌) (regroup output (codes ", ") (entry_text e) (following es))

  print_loop-after :
      (es : List (Text × Option Net)) (front : Text) (c : ℕ) (behind : Text)
      → print_loop es (front ++ c ∷ behind) ≡ (front ++ c ∷ behind) ++ following es
  print_loop-after es [] c behind = print_loop-cons es c behind
  print_loop-after es (x ∷ front) c behind = print_loop-cons es x (front ++ c ∷ behind)

  -- What `to_string` prints for a table with entries is their texts, with a comma and a space
  -- between two of them and none in front.
  to_string-entries :
      (e : Text × Option Net) (es : List (Text × Option Net))
      → to_string (e ∷ es) ≡ entry_text e ++ following es
  unfolding to_string print_loop
  to_string-entries (u, none) es = print_loop-after es u _ _
  to_string-entries (u, some n) es = print_loop-after es (show n ++ codes " (input: " ++ u) _ _
