-- ===== src/App/Routes.antt =====
-- mulery.go and upstreams.go: which handler of `Start` a request reaches. A text is the list of its
-- code points; `clean` is the canonical form that `http.ServeMux` gives to a path.
pub mod Mux
pub mod Guard
use Prim.Native.String
use wsp.Base.{
  ℕ, Bool, true, false, ◌&&◌, List, [], ◌∷◌, ◌++◌, map, Option, none, some, length, ltb, ◌==◌,
  if◌then◌else◌,
}
use wsp.Runtime.{Result, ok, ◌>>=◌}
use wsp.App.Paths.{codes, slash, same, label}
use wsp.App.Upstreams.{Text, host_of, contains}

-- The handlers that `Start` gives to the mux.
pub data Target : Type 0 where
  metrics register stats handle_all request health : Target

unfoldable pub routes : List (Text × Target)
routes =
    (codes "/metrics", metrics)
    ∷ (codes "/register", register)
    ∷ (codes "/stats", stats)
    ∷ (codes "/request", handle_all)
    ∷ (codes "/request/", request)
    ∷ (codes "/health", health)
    ∷ (codes "/", handle_all)
    ∷ []

-- `strings.CutPrefix(s, p)`
abbrev pub cut_prefix : Text → Text → Option Text
cut_prefix [] s = some s
cut_prefix (c ∷ p) [] = none
cut_prefix (c ∷ p) (d ∷ s) = if c == d then cut_prefix p s else none

abbrev pub has_prefix : Text → Text → Bool
has_prefix p s = elim (cut_prefix p s) [ none ↦ false | some t ↦ true ]

-- A pattern that ends in a slash stands for the paths below it.
abbrev pub is_tree : Text → Bool
is_tree [] = false
is_tree (c ∷ []) = c == slash
is_tree (c ∷ d ∷ s) = is_tree (d ∷ s)

abbrev pub exact : List (Text × Target) → Text → Option Target
exact [] path = none
exact (r ∷ rest) path = if same r.0 path then some r.1 else exact rest path

abbrev pub longer : Text × Target → Option (Text × Target) → Text × Target
longer r none = r
longer r (some b) = if ltb (length r.0) (length b.0) then b else r

-- The longest pattern for the paths below it that `path` lies below.
abbrev pub longest : List (Text × Target) → Text → Option (Text × Target)
longest [] path = none
longest (r ∷ rest) path =
    let best = longest rest path in
    if is_tree r.0 && has_prefix r.0 path then some (longer r best) else best

-- The choice of the mux: a path of its own before the longest pattern.
unfoldable pub mux : List (Text × Target) → Text → Option Target
mux table path = elim (exact table path) [
  | some t ↦ some t
  | none ↦ elim (longest table path) [ none ↦ none | some r ↦ some r.1 ]
]

-- A request, as far as the choice depends on it; `raw_path` is empty where the path is written the
-- default way.
pub record Request : Type 0 where
  pub is_connect : Bool
  pub path : Text
  pub raw_path : Text
  pub remote_addr : Text

-- What becomes of a request. `tunneled` is what is left to `HandleRequest`: the label and the path.
pub data Answer : Type 0 where
  shows_metrics registers shows_stats unauthorized says_ok not_found : Answer
  redirected moved : Text → Answer
  tunneled : Text → Text → Answer

-- `http.StripPrefix("/request", h)`: the prefix has to be cut off the path, and off the raw path
-- where there is one.
abbrev pub strip_raw : Text → Result Answer → Result Answer
strip_raw [] next = next
strip_raw (c ∷ raw) next = if has_prefix (codes "/request") (c ∷ raw) then next else ok not_found

abbrev pub strip_request : Request → (Text → Result Answer) → Result Answer
strip_request r next = elim (cut_prefix (codes "/request") r.path) [
  | none ↦ ok not_found
  | some rest ↦ strip_raw r.raw_path (next rest)
]

-- `HandleAll`
unfoldable pub refuse : Text → Answer
refuse [] = unauthorized
refuse (c ∷ url) = redirected (c ∷ url)

module _ (Net : Type 0) (parse_cidr : Text → Option Net) (inside : Net → Text → Bool)
    (clean : Text → Text) (entries : List (Text × Option Net)) (redirect_url : Text) where
  -- `ValidateUpstream` and `Contains`
  unfoldable pub validate_upstream : Request → Result Answer → Result Answer
  validate_upstream r next = do
    host ← host_of r.remote_addr
    if contains Net parse_cidr inside entries host then next else ok (refuse redirect_url)

  -- The handlers as `Start` composes them.
  unfoldable pub handle : Target → Request → Result Answer
  handle metrics r = validate_upstream r (ok shows_metrics)
  handle register r = ok registers
  handle stats r = validate_upstream r (ok shows_stats)
  handle handle_all r = ok (refuse redirect_url)
  handle request r = strip_request r λ rest. validate_upstream r (ok (tunneled (label rest) rest))
  handle health r = ok says_ok

  -- The mux: a path that is not in the canonical form is redirected, but for CONNECT.
  unfoldable pub serve_http : Request → Result Answer
  serve_http r =
      if (if r.is_connect then true else same (clean r.path) r.path)
      then elim (mux routes r.path) [ none ↦ ok not_found | some t ↦ handle t r ]
      else ok (moved (clean r.path))
