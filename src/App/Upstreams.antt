-- ===== src/App/Upstreams.antt =====
-- upstreams.go: the networks whose requests are let in. A text is the list of its code points; the
-- networks, `net.ParseCIDR`, `net.IPNet.Contains` and `net.LookupHost` are parameters.
pub mod Access
pub mod Callers
pub mod Print
pub mod Stopping
use wsp.Base.{
  ℕ, Bool, true, false, ◌&&◌, ◌||◌, not, List, [], ◌∷◌, ◌++◌, map, Option, none, some, ◌==◌,
  if◌then◌else◌,
}
use wsp.Runtime.{Result, ok, panics, ◌>>=◌, index_range}
use wsp.App.Paths.{codes}

abbrev pub Text : Type 0
Text = List ℕ

-- `strings.Contains(s, c)` for one code point.
abbrev pub has : ℕ → Text → Bool
has c [] = false
has c (d ∷ s) = (d == c) || has c s

-- `s[:strings.LastIndex(s, c)]`, if there is one.
abbrev pub before_last : ℕ → Text → Option Text
before_last c [] = none
before_last c (d ∷ s) = elim (before_last c s) [
  | some t ↦ some (d ∷ t)
  | none ↦ if d == c then some [] else none
]

abbrev pub is_bracket : ℕ → Bool
is_bracket c = (c == b'[') || (c == b']')

abbrev pub trim_left : Text → Text
trim_left [] = []
trim_left (c ∷ s) = if is_bracket c then trim_left s else c ∷ s

abbrev pub trim_right : Text → Text
trim_right [] = []
trim_right (c ∷ s) = elim (trim_right s) [
  | [] ↦ if is_bracket c then [] else c ∷ []
  | d ∷ t ↦ c ∷ d ∷ t
]

-- The argument of the send in `Contains`; a text without a colon makes the slice panic.
unfoldable pub host_of : Text → Result Text
host_of ip = elim (before_last b':' ip) [
  | none ↦ panics index_range
  | some h ↦ ok (trim_right (trim_left h))
]

-- `net.LookupHost` at one time.
abbrev pub Lookup : Type 0
Lookup = Text → Option (List Text)

-- The text that `parseAndLookup` tries to read as a network.
abbrev pub with_mask : Text → Text
with_mask ip = if has b'/' ip then ip else ip ++ (if has b':' ip then codes "/128" else codes "/32")

module _ (Net : Type 0) (parse_cidr : Text → Option Net) (inside : Net → Text → Bool) where
  -- An entry of the fields `input` and `nets`, which have the same length.
  abbrev pub Entry : Type 0
  Entry = Text × Option Net

  -- What a lookup gives for a name, or what there was before.
  unfoldable pub resolve : Option (List Text) → Option Net → Option Net
  resolve none old = old
  resolve (some []) old = old
  resolve (some (a ∷ more)) old = elim (parse_cidr (a ++ codes "/32")) [
    | some n ↦ some n
    | none ↦ old
  ]

  -- One round of the loop of `parseAndLookup`.
  unfoldable pub net_of : Lookup → Text → Option Net → Option Net
  net_of lookup u old = elim (parse_cidr (with_mask u)) [
    | some n ↦ some n
    | none ↦ resolve (lookup u) old
  ]

  -- `parseAndLookup`
  unfoldable pub parse_and_lookup : Lookup → List Text → List Entry → Result (List Entry)
  parse_and_lookup lookup [] entries = ok entries
  parse_and_lookup lookup (u ∷ us) [] = panics index_range
  parse_and_lookup lookup (u ∷ us) (e ∷ entries) = do
    rest ← parse_and_lookup lookup us entries
    ok ((u, net_of lookup u e.1) ∷ rest)

  -- `MakeIPs`, without the goroutine.
  unfoldable pub make_ips : Lookup → List Text → Result (List Entry)
  make_ips lookup upstreams = parse_and_lookup lookup upstreams (map (λ u. ([], none)) upstreams)

  -- `contains`
  unfoldable pub contains : List Entry → Text → Bool
  contains [] ip = false
  contains ((u, none) ∷ rest) ip = contains rest ip
  contains ((u, some n) ∷ rest) ip = if inside n ip then true else contains rest ip

  -- What `Start` receives: a tick, when names are looked up again, or an address.
  pub data Message : Type 0 where
    ticks : Lookup → Message
    asks : Text → Message

  -- The loop of `Start`, up to the closing of `askIP`, with the answers that it sends.
  unfoldable pub serve : List Message → List Entry → Result (List Entry × List Bool)
  serve [] entries = ok (entries, [])
  serve (ticks lookup ∷ ms) entries = do
    entries' ← parse_and_lookup lookup (map (λ e. e.0) entries) entries
    serve ms entries'
  serve (asks ip ∷ ms) entries = do
    (entries', answers) ← serve ms entries
    ok (entries', contains entries ip ∷ answers)
