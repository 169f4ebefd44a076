-- ===== src/App/Routes/Guard.antt =====
-- Who reaches which handler of `Start` in mulery.go.
use wsp.Base.{
  ◌≤◌, ◌≡◌, refl, sym, ap, ◌∙◌, ◌≢◌, ◌⊎◌, Bool, true, false, List, [], ◌∷◌, ◌++◌, Option, none,
  some, if◌then◌else◌, In, Bool-cases, inl, inr, arith,
}
use wsp.Runtime.{Result, ok, Returns}
use wsp.App.Paths.{codes, same, label}
use wsp.App.Paths.Bounds.{slashes, label-bounded}
use wsp.App.Upstreams.{Text, host_of, contains}
use wsp.App.Routes.{
  Target, metrics, register, stats, handle_all, request, health, routes, cut_prefix, has_prefix,
  mux, Request, strip_request, strip_raw, refuse, Answer, shows_metrics, registers, shows_stats,
  unauthorized, says_ok, not_found, redirected, moved, tunneled, validate_upstream, handle,
  serve_http,
}
use wsp.App.Routes.Mux.{
  At, cut_prefix-append, choice-At, choice-none, choice-below, choice, mux-choice,
}

module _ (Net : Type 0) (parse_cidr : Text → Option Net) (inside : Net → Text → Bool)
    (clean : Text → Text) (entries : List (Text × Option Net)) (redirect_url : Text) where
  -- The address lies in a network of the table.
  abbrev pub LiesIn : Text → Type 0
  LiesIn host = (u : Text) × (n : Net) × In (u, some n) entries × (inside n host ≡ true)

  -- What has to be so for an answer.
  abbrev pub Behind : Request → Text → Answer → Type 0
  Behind r host shows_metrics = (r.path ≡ codes "/metrics") × LiesIn host
  Behind r host shows_stats = (r.path ≡ codes "/stats") × LiesIn host
  Behind r host (tunneled l path) =
      (r.path ≡ codes "/request" ++ path) × (l ≡ label path) × (slashes l ≤ 4) × LiesIn host
  Behind r host registers = r.path ≡ codes "/register"
  Behind r host says_ok = r.path ≡ codes "/health"
  Behind r host unauthorized = redirect_url ≡ []
  Behind r host (redirected url) = (url ≡ redirect_url) × (url ≢ [])
  Behind r host (moved path) = (path ≡ clean r.path) × (same path r.path ≡ false)
  Behind r host not_found = (r.raw_path ≢ []) ⊎ (has_prefix (codes "/") r.path ≡ false)

  refuse-Behind : (r : Request) (host url : Text) → url ≡ redirect_url → Behind r host (refuse url)
  unfolding refuse
  refuse-Behind r host [] e = sym e
  refuse-Behind r host (c ∷ url) e = (e, λ f. cc)

  contains-LiesIn :
      (l : List (Text × Option Net)) (host : Text)
      → contains Net parse_cidr inside l host ≡ true
      → (u : Text) × (n : Net) × In (u, some n) l × (inside n host ≡ true)
  unfolding contains
  contains-LiesIn [] host h = cc
  contains-LiesIn ((u, none) ∷ rest) host h =
      let (v, n, i, e) = contains-LiesIn rest host h in (v, n, inr i, e)
  contains-LiesIn ((u, some n) ∷ rest) host h = elim (Bool-cases (inside n host)) [
    | inl e ↦ (u, n, inl refl, e)
    | inr e ↦ let (v, m, i, f) = contains-LiesIn rest host (rw e at h) in (v, m, inr i, f)
  ]

  validate_upstream-Behind :
      (r : Request) (host : Text) (a : Answer)
      → host_of r.remote_addr ≡ ok host
      → (LiesIn host → Behind r host a)
      → Returns
          (validate_upstream Net parse_cidr inside clean entries redirect_url r (ok a))
          (Behind r host)
  unfolding validate_upstream
  validate_upstream-Behind r host a e k =
      elim (Bool-cases (contains Net parse_cidr inside entries host)) [
        | inl c ↦ rw (e, c) (k (contains-LiesIn entries host c))
        | inr c ↦ rw (e, c) (refuse-Behind r host redirect_url refl)
      ]

  strip_request-Behind :
      (r : Request) (host rest : Text) (next : Text → Result Answer)
      → r.path ≡ codes "/request" ++ rest
      → Returns (next rest) (Behind r host)
      → Returns (strip_request r next) (Behind r host)
  strip_request-Behind r host rest next e h =
      let cut : cut_prefix (codes "/request") r.path ≡ some rest =
        rw e (cut_prefix-append (codes "/request") rest) in
      rw cut (go r.raw_path refl)
    where
      go : (raw : Text) → r.raw_path ≡ raw → Returns (strip_raw raw (next rest)) (Behind r host)
      go [] f = h
      go (c ∷ raw) f = elim (Bool-cases (has_prefix (codes "/request") (c ∷ raw))) [
        | inl p ↦ rw p h
        | inr p ↦ rw p (inl λ g. cc)
      ]

  handle-Behind :
      (t : Target) (r : Request) (host : Text)
      → host_of r.remote_addr ≡ ok host
      → At t r.path
      → Returns (handle Net parse_cidr inside clean entries redirect_url t r) (Behind r host)
  unfolding handle
  handle-Behind metrics r host e p =
      validate_upstream-Behind r host shows_metrics e λ lies. (p, lies)
  handle-Behind register r host e p = p
  handle-Behind stats r host e p = validate_upstream-Behind r host shows_stats e λ lies. (p, lies)
  handle-Behind handle_all r host e p = refuse-Behind r host redirect_url refl
  handle-Behind request r host e (rest, p) = strip_request-Behind r host rest _ p (
      validate_upstream-Behind r host (tunneled (label rest) rest) e
        λ lies. (p, refl, label-bounded rest, lies))
  handle-Behind health r host e p = p

  -- A request from an address `host:port` is answered, and the answer is one that its path gives
  -- it: the metrics, the statistics and the tunnel are only reached from an address in a network of
  -- the table, the tunnel with what follows `/request` and with a label of four slashes at most; a
  -- redirection leads to the URL of the configuration or to the canonical path, and a request that
  -- no handler takes has a path that is written in another way, or one that does not begin with a
  -- slash.
  pub serve_http-Behind :
      (r : Request) (host : Text)
      → host_of r.remote_addr ≡ ok host
      → Returns (serve_http Net parse_cidr inside clean entries redirect_url r) (Behind r host)
  unfolding serve_http
  serve_http-Behind r host e =
      elim (Bool-cases (if r.is_connect then true else same (clean r.path) r.path)) [
        | inl c ↦ rw c (chosen (mux routes r.path) refl)
        | inr c ↦ rw c (refl, missed_clean r.is_connect c)
      ]
    where
      chosen :
          (t : Option Target)
          → mux routes r.path ≡ t
          → Returns
              (elim t [
                | none ↦ ok not_found
                | some u ↦ handle Net parse_cidr inside clean entries redirect_url u r
              ])
              (Behind r host)
      chosen none m = inr (choice-none r.path (sym (mux-choice r.path) ∙ m))
      chosen (some t) m =
          handle-Behind t r host e (choice-At r.path t (sym (mux-choice r.path) ∙ m))

      missed_clean :
          (connect : Bool)
          → (if connect then true else same (clean r.path) r.path) ≡ false
          → same (clean r.path) r.path ≡ false
      missed_clean true h = cc
      missed_clean false h = h

  -- A request for a canonical path below `/request/` from an allowed address reaches the tunnel
  -- with the rest of its path; from another it gets what `HandleAll` answers.
  pub serve_http-tunneled :
      (r : Request) (host rest : Text)
      → host_of r.remote_addr ≡ ok host
      → r.path ≡ codes "/request/" ++ rest
      → r.raw_path ≡ []
      → same (clean r.path) r.path ≡ true
      → serve_http Net parse_cidr inside clean entries redirect_url r ≡ (
          if contains Net parse_cidr inside entries host
          then ok (tunneled (label (codes "/" ++ rest)) (codes "/" ++ rest))
          else ok (refuse redirect_url))
  unfolding serve_http handle validate_upstream
  serve_http-tunneled r host rest e p raw c =
      let takes : (if r.is_connect then true else same (clean r.path) r.path) ≡ true =
        ground (arith, c) in
      let chosen : mux routes r.path ≡ some request =
        mux-choice r.path ∙ ap choice p ∙ choice-below rest in
      let cut : cut_prefix (codes "/request") r.path ≡ some (codes "/" ++ rest) =
        ap (cut_prefix (codes "/request")) p in
      simp (takes, chosen, cut, raw, e) refl
