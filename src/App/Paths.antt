-- ===== src/App/Paths.antt =====
-- `parsePath` of mulery.go: the label under which the response time of a request is measured. A
-- text is the list of its code points.
pub mod Bounds
use Prim.Native.Char.{code}
use Prim.Native.String
use Prim.Native.String.{String}
use wsp.Base.{
  ℕ, zero, suc, ◌+◌, Bool, true, false, ◌&&◌, ◌||◌, List, [], ◌∷◌, ◌++◌, Option, none, some, ◌==◌,
  if◌then◌else◌,
}

abbrev pub codes : String → List ℕ
codes String.[] = []
codes (String.◌∷◌ c s) = code c ∷ codes s

abbrev pub slash : ℕ
slash = b'/'

-- What stands before and behind the first slash.
abbrev pub cut : List ℕ → Option (List ℕ × List ℕ)
cut [] = none
cut (c ∷ s) =
    if c == slash
    then some ([], s)
    else elim (cut s) [ none ↦ none | some (before, behind) ↦ some (c ∷ before, behind) ]

-- `strings.SplitN(s, "/", n)`, for positive `n`: the last part keeps its slashes.
unfoldable pub split_n : ℕ → List ℕ → List (List ℕ)
split_n zero s = []
split_n (suc zero) s = s ∷ []
split_n (suc (suc n)) s = elim (cut s) [
  | none ↦ s ∷ []
  | some (before, behind) ↦ before ∷ split_n (suc n) behind
]

-- `strings.Join(parts, "/")`
abbrev pub join : List (List ℕ) → List ℕ
join [] = []
join (x ∷ []) = x
join (x ∷ y ∷ ys) = x ++ slash ∷ join (y ∷ ys)

abbrev pub same : List ℕ → List ℕ → Bool
same [] [] = true
same [] (d ∷ t) = false
same (c ∷ s) [] = false
same (c ∷ s) (d ∷ t) = (c == d) && same s t

-- The versions that are counted with version 1.
abbrev pub is_later_version : List ℕ → Bool
is_later_version s =
    same s (codes "2") || same s (codes "3") || same s (codes "4") || same s (codes "5")

-- The label of a path below `api`, given the parts from the third on.
unfoldable pub api_label : List ℕ → List ℕ → List ℕ → List (List ℕ) → List ℕ
api_label path a b [] = path
api_label path a b (c ∷ []) = path
api_label path a b (c ∷ d ∷ []) = join (a ∷ b ∷ c ∷ d ∷ [])
api_label path a b (c ∷ d ∷ e ∷ rest) =
    if same c (codes "trigger")
    then join (a ∷ b ∷ c ∷ d ∷ [])
    else join (a ∷ b ∷ c ∷ (if is_later_version d then codes "1" else d) ∷ e ∷ [])

unfoldable pub label_of : List ℕ → List (List ℕ) → List ℕ
label_of path [] = codes "/"
label_of path (a ∷ []) = codes "/"
label_of path (a ∷ b ∷ rest) =
    if same b (codes "api") then api_label path a b rest else codes "/non/api"

-- The name that `parsePath` gives to `HandleRequest`.
unfoldable pub label : List ℕ → List ℕ
label path = label_of path (split_n 6 path)
