-- ===== src/App/Upstreams/Access.antt =====
-- Who is let in by upstreams.go, however often the names are looked up again.
use mathlib.Core.Path.{subst}
use wsp.Base.{
  ◌≡◌, refl, ◌⊎◌, inl, inr, Bool, true, false, List, [], ◌∷◌, ◌++◌, map, In, Option, none, some,
  Bool-cases, Option-cases,
}
use wsp.Runtime.{◌>>=◌, Returns, Returns-bind}
use wsp.App.Paths.{codes}
use wsp.App.Upstreams.{
  Text, Lookup, Entry, with_mask, resolve, net_of, parse_and_lookup, make_ips, contains, Message,
  ticks, asks, serve,
}

module _ (Net : Type 0) (parse_cidr : Text → Option Net) (inside : Net → Text → Bool)
    (Known : Lookup → Type 0) where
  -- The network is the one that the upstream is, or the one of an address to which a known lookup
  -- has resolved it.
  abbrev pub Source : Text → Net → Type 0
  Source u n =
      (parse_cidr (with_mask u) ≡ some n)
      ⊎ ((lookup : Lookup) × Known lookup
          × (a : Text) × (more : List Text) × (lookup u ≡ some (a ∷ more))
          × (parse_cidr (a ++ codes "/32") ≡ some n))

  abbrev pub Justified : Text → Option Net → Type 0
  Justified u none = Unit
  Justified u (some n) = Source u n

  -- An upstream that is a network stands as that network.
  abbrev pub Pinned : Text → Option Net → Type 0
  Pinned u o = (n : Net) → parse_cidr (with_mask u) ≡ some n → o ≡ some n

  resolve-Justified :
      (lookup : Lookup) (u : Text) (found : Option (List Text)) (old : Option Net)
      → Known lookup
      → lookup u ≡ found
      → Justified u old
      → Justified u (resolve Net parse_cidr inside found old)
  unfolding resolve
  resolve-Justified lookup u none old k e j = j
  resolve-Justified lookup u (some []) old k e j = j
  resolve-Justified lookup u (some (a ∷ more)) old k e j =
      elim (Option-cases (parse_cidr (a ++ codes "/32"))) [
        | inl p ↦ rw (p, resolve) j
        | inr (n, p) ↦ rw (p, resolve) (inr (lookup, k, a, more, e, p))
      ]

  net_of-Justified :
      (lookup : Lookup) (u : Text) (old : Option Net)
      → Known lookup
      → Justified u old
      → Justified u (net_of Net parse_cidr inside lookup u old)
        × Pinned u (net_of Net parse_cidr inside lookup u old)
  unfolding net_of
  net_of-Justified lookup u old k j = elim (Option-cases (parse_cidr (with_mask u))) [
    | inl p ↦ rw (p, net_of) (resolve-Justified lookup u (lookup u) old k refl j, λ n e. cc)
    | inr (n, p) ↦ rw (p, net_of) (inl p, λ m e. e)
  ]

  -- The entries of the upstreams before a lookup, and after one.
  abbrev pub Old : List Text → List (Entry Net parse_cidr inside) → Type 0
  Old [] [] = Unit
  Old [] (e ∷ es) = ⊥
  Old (u ∷ us) [] = ⊥
  Old (u ∷ us) (e ∷ es) = Justified u e.1 × Old us es

  abbrev pub Fits : List Text → List (Entry Net parse_cidr inside) → Type 0
  Fits [] [] = Unit
  Fits [] (e ∷ es) = ⊥
  Fits (u ∷ us) [] = ⊥
  Fits (u ∷ us) (e ∷ es) = (e.0 ≡ u) × (Justified u e.1 × Pinned u e.1) × Fits us es

  pub parse_and_lookup-Fits :
      (lookup : Lookup) (us : List Text) (es : List (Entry Net parse_cidr inside))
      → Known lookup
      → Old us es
      → Returns (parse_and_lookup Net parse_cidr inside lookup us es) (Fits us)
  unfolding parse_and_lookup
  parse_and_lookup-Fits lookup [] [] k h = tt
  parse_and_lookup-Fits lookup [] (e ∷ es) k h = absurd h
  parse_and_lookup-Fits lookup (u ∷ us) [] k h = absurd h
  parse_and_lookup-Fits lookup (u ∷ us) (e ∷ es) k h =
      Returns-bind (parse_and_lookup Net parse_cidr inside lookup us es) _ (Fits us) _
        (parse_and_lookup-Fits lookup us es k h.1)
        λ rest f. (refl, net_of-Justified lookup u e.1 k h.0, f)

  pub Fits-Old : (us : List Text) (es : List (Entry Net parse_cidr inside)) → Fits us es → Old us es
  Fits-Old [] [] f = tt
  Fits-Old [] (e ∷ es) f = f
  Fits-Old (u ∷ us) [] f = f
  Fits-Old (u ∷ us) (e ∷ es) f = (f.1.0, Fits-Old us es f.2)

  pub Fits-inputs :
      (us : List Text) (es : List (Entry Net parse_cidr inside))
      → Fits us es
      → map (λ e. e.0) es ≡ us
  Fits-inputs [] [] f = refl
  Fits-inputs [] (e ∷ es) f = absurd f
  Fits-inputs (u ∷ us) [] f = absurd f
  Fits-inputs (u ∷ us) (e ∷ es) f = cc (f.0, Fits-inputs us es f.2)

  pub empty-Old : (us : List Text) → Old us (map (λ u. ([], none)) us)
  empty-Old [] = tt
  empty-Old (u ∷ us) = (tt, empty-Old us)

  -- An address is let in only when it lies in a network of an upstream, or of an address that an
  -- upstream resolved to; and it is let in when it lies in the network of an upstream.
  pub record Right (us : List Text) (ip : Text) (answer : Bool) : Type 0 where
    pub justified :
        answer ≡ true → (u : Text) × In u us × (n : Net) × Source u n × (inside n ip ≡ true)
    pub complete :
        (u : Text) (n : Net)
        → In u us
        → parse_cidr (with_mask u) ≡ some n
        → inside n ip ≡ true
        → answer ≡ true

  -- An upstream whose entry does not let the address in.
  skip :
      {answer : Bool} {ip : Text} (us : List Text) (u : Text)
      → Right us ip answer
      → ((n : Net) → parse_cidr (with_mask u) ≡ some n → inside n ip ≡ true → ⊥)
      → Right (u ∷ us) ip answer
  skip us u r misses = record {
    justified = λ e. let (w, h, n, source, hit) = r.justified e in (w, inr h, n, source, hit);
    complete = λ w n h p e. elim h [
      | inl same ↦ absurd (misses n (subst (λ x. parse_cidr (with_mask x) ≡ some n) same p) e)
      | inr later ↦ r.complete w n later p e
    ];
  }

  pub contains-Right :
      (us : List Text) (es : List (Entry Net parse_cidr inside)) (ip : Text)
      → Fits us es
      → Right us ip (contains Net parse_cidr inside es ip)
  unfolding contains
  contains-Right [] [] ip f = record { justified = λ e. cc; complete = λ u n h. absurd h }
  contains-Right [] (e ∷ es) ip f = absurd f
  contains-Right (u ∷ us) [] ip f = absurd f
  contains-Right (u ∷ us) ((v, none) ∷ es) ip f = skip us u (contains-Right us es ip f.2) missing
    where
      missing : (n : Net) → parse_cidr (with_mask u) ≡ some n → inside n ip ≡ true → ⊥
      missing n p e = let wrong : none ≡ some n = f.1.1 n p in cc
  contains-Right (u ∷ us) ((v, some m) ∷ es) ip f = elim (Bool-cases (inside m ip)) [
    | inl hit ↦
        rw (hit, contains)
          (record { justified = λ _. (u, inl refl, m, f.1.0, hit); complete = λ w n h p e. refl })
    | inr miss ↦
        rw (miss, contains) (skip us u (contains-Right us es ip f.2) (λ n p e. passed n p e miss))
  ]
    where
      passed :
          (n : Net)
          → parse_cidr (with_mask u) ≡ some n
          → inside n ip ≡ true
          → inside m ip ≡ false
          → ⊥
      passed n p e miss = let same : some m ≡ some n = f.1.1 n p in cc

  -- Every answer is right, one for each address that is asked for.
  abbrev pub Answered : List Text → List (Message Net parse_cidr inside) → List Bool → Type 0
  Answered us [] [] = Unit
  Answered us [] (b ∷ bs) = ⊥
  Answered us (ticks lookup ∷ ms) bs = Answered us ms bs
  Answered us (asks ip ∷ ms) [] = ⊥
  Answered us (asks ip ∷ ms) (b ∷ bs) = Right us ip b × Answered us ms bs

  -- The lookups of the ticks are known.
  abbrev pub AllKnown : List (Message Net parse_cidr inside) → Type 0
  AllKnown [] = Unit
  AllKnown (ticks lookup ∷ ms) = Known lookup × AllKnown ms
  AllKnown (asks ip ∷ ms) = AllKnown ms

  serve-Answered :
      (us : List Text) (ms : List (Message Net parse_cidr inside))
      (es : List (Entry Net parse_cidr inside))
      → AllKnown ms
      → Fits us es
      → Returns (serve Net parse_cidr inside ms es) (λ r. Answered us ms r.1)
  unfolding serve
  serve-Answered us [] es k f = tt
  serve-Answered us (ticks lookup ∷ ms) es (k, ks) f = rw (Fits-inputs us es f) (
      Returns-bind (parse_and_lookup Net parse_cidr inside lookup us es)
        (serve Net parse_cidr inside ms) (Fits us) _
        (parse_and_lookup-Fits lookup us es k (Fits-Old us es f))
        λ es' f'. serve-Answered us ms es' ks f')
  serve-Answered us (asks ip ∷ ms) es k f =
      Returns-bind (serve Net parse_cidr inside ms es) _ (λ r. Answered us ms r.1) _
        (serve-Answered us ms es k f) λ r h. (contains-Right us es ip f, h)

  -- Whatever the ticks look up, `MakeIPs` and the goroutine return and answer every address that is
  -- asked for. Each address that is let in lies in a network of an upstream, or of an address to
  -- which a lookup at the start or at a tick has resolved an upstream; and every address in the
  -- network of an upstream is let in.
  pub make_ips-Answered :
      (first : Lookup) (us : List Text) (ms : List (Message Net parse_cidr inside))
      → Known first
      → AllKnown ms
      → Returns
          (make_ips Net parse_cidr inside first us >>= serve Net parse_cidr inside ms)
          (λ r. Answered us ms r.1)
  unfolding make_ips
  make_ips-Answered first us ms k ks =
      Returns-bind (make_ips Net parse_cidr inside first us) (serve Net parse_cidr inside ms)
        (Fits us) _ (parse_and_lookup-Fits first us _ k (empty-Old us))
        λ es f. serve-Answered us ms es ks f
