-- ===== src/App/Start/Guarded.antt =====
-- Whom a running application lets in.
use wsp.Base.{
  ◌≡◌, refl, sym, ap, ◌∙◌, Bool, true, false, List, [], ◌∷◌, ◌++◌, In, Option, none, some, inl, inr,
}
use wsp.Runtime.{ok, Returns, Returns-bind, Returns-ok}
use wsp.App.Paths.{codes, same, label}
use wsp.App.Upstreams.{Text, Lookup, with_mask, host_of, contains, parse_and_lookup}
use wsp.App.Upstreams.Access.{
  Source, Fits, parse_and_lookup-Fits, Fits-Old, Fits-inputs, contains-Right,
}
use wsp.App.Routes.{
  Request, Answer, shows_metrics, registers, shows_stats, unauthorized, says_ok, not_found,
  redirected, moved, tunneled, serve_http,
}
use mathlib.Core.Path.{subst}
use wsp.App.Routes.Guard.{Behind, LiesIn, serve_http-Behind, serve_http-tunneled}
use wsp.App.Start.{Event, refreshes, arrives, listener_fails, live}

-- Behind these answers stands something that not everybody may see.
abbrev pub exposes : Answer → Bool
exposes shows_metrics = true
exposes shows_stats = true
exposes (tunneled l path) = true
exposes _ = false

module _ (Net : Type 0) (parse_cidr : Text → Option Net) (inside : Net → Text → Bool)
    (clean : Text → Text) (Known : Lookup → Type 0) where
  -- The answer to a request from `host`: what not everybody may see is shown only to an address in
  -- a network of an upstream; and an address in the network of an upstream reaches the tunnel.
  pub record Guarded (us : List Text) (r : Request) (host : Text) (a : Answer) : Type 0 where
    pub guarded :
        exposes a ≡ true
        → (u : Text) × In u us
          × (n : Net) × Source Net parse_cidr inside Known u n
          × (inside n host ≡ true)
    pub reaches :
        (u : Text) (n : Net) (rest : Text)
        → In u us
        → parse_cidr (with_mask u) ≡ some n
        → inside n host ≡ true
        → r.path ≡ codes "/request/" ++ rest
        → r.raw_path ≡ []
        → same (clean r.path) r.path ≡ true
        → a ≡ tunneled (label (codes "/" ++ rest)) (codes "/" ++ rest)

  -- Every request has an address with a port, and the lookups are known.
  abbrev pub Fair : List Event → Type 0
  Fair [] = Unit
  Fair (listener_fails ∷ es) = Fair es
  Fair (refreshes lookup ∷ es) = Known lookup × Fair es
  Fair (arrives r ∷ es) = ((host : Text) × (host_of r.remote_addr ≡ ok host)) × Fair es

  -- The answers, one for each request until the listener fails, which ends the process.
  abbrev pub AllGuarded : List Text → List Event → List Answer → Type 0
  AllGuarded us [] [] = Unit
  AllGuarded us [] (a ∷ answers) = ⊥
  AllGuarded us (listener_fails ∷ es) answers = answers ≡ []
  AllGuarded us (refreshes lookup ∷ es) answers = AllGuarded us es answers
  AllGuarded us (arrives r ∷ es) [] = ⊥
  AllGuarded us (arrives r ∷ es) (a ∷ answers) =
      ((host : Text) × (host_of r.remote_addr ≡ ok host) × Guarded us r host a)
      × AllGuarded us es answers

  -- An entry of the table comes from an upstream.
  entry-Source :
      (us : List Text) (allow : List (Text × Option Net)) (u : Text) (n : Net)
      → Fits Net parse_cidr inside Known us allow
      → In (u, some n) allow
      → In u us × Source Net parse_cidr inside Known u n
  entry-Source [] [] u n f m = absurd m
  entry-Source [] (e ∷ es) u n f m = absurd f
  entry-Source (v ∷ us) [] u n f m = absurd f
  entry-Source (v ∷ us) ((w, none) ∷ es) u n f (inl e) =
      let wrong : some n ≡ none = ap (λ (x : Text × Option Net). x.1) e in cc
  entry-Source (v ∷ us) ((w, some k) ∷ es) u n f (inl e) =
      let found : some n ≡ some k = ap (λ (x : Text × Option Net). x.1) e in
      let same : n ≡ k = cc in
      let name : u ≡ w = ap (λ (x : Text × Option Net). x.0) e in
      (
        inl (name ∙ f.0),
        subst (λ x. Source Net parse_cidr inside Known x n) (sym (name ∙ f.0))
            (subst (Source Net parse_cidr inside Known v) (sym same) f.1.0),
      )
  entry-Source (v ∷ us) (e ∷ es) u n f (inr m) =
      let (i, source) = entry-Source us es u n f.2 m in (inr i, source)

  Behind-LiesIn :
      (allow : List (Text × Option Net)) (redirect_url : Text) (r : Request) (host : Text)
      (a : Answer)
      → exposes a ≡ true
      → Behind Net parse_cidr inside clean allow redirect_url r host a
      → LiesIn Net parse_cidr inside clean allow redirect_url host
  Behind-LiesIn allow redirect_url r host shows_metrics e b = b.1
  Behind-LiesIn allow redirect_url r host shows_stats e b = b.1
  Behind-LiesIn allow redirect_url r host (tunneled l path) e b = b.3
  Behind-LiesIn allow redirect_url r host registers e b = cc
  Behind-LiesIn allow redirect_url r host unauthorized e b = cc
  Behind-LiesIn allow redirect_url r host says_ok e b = cc
  Behind-LiesIn allow redirect_url r host not_found e b = cc
  Behind-LiesIn allow redirect_url r host (redirected url) e b = cc
  Behind-LiesIn allow redirect_url r host (moved path) e b = cc

  answer-Guarded :
      (us : List Text) (r : Request) (host : Text) (redirect_url : Text)
      (allow : List (Text × Option Net))
      → Fits Net parse_cidr inside Known us allow
      → host_of r.remote_addr ≡ ok host
      → Returns (serve_http Net parse_cidr inside clean allow redirect_url r) (Guarded us r host)
  answer-Guarded us r host redirect_url allow fits e =
      let (a, ea, b) =
        Returns-ok (serve_http Net parse_cidr inside clean allow redirect_url r)
          (serve_http-Behind Net parse_cidr inside clean allow redirect_url r host e) in
      rw ea (record {
        guarded = λ x.
            let (u, n, m, hit) = Behind-LiesIn allow redirect_url r host a x b in
            let (i, source) = entry-Source us allow u n fits m in (u, i, n, source, hit);
        reaches = λ u n rest i known hit p raw canonical.
            let lets_in : contains Net parse_cidr inside allow host ≡ true =
              (contains-Right Net parse_cidr inside Known us allow host fits).complete u n i known
                hit in
            let answer =
              serve_http-tunneled Net parse_cidr inside clean allow redirect_url r host rest e p raw
                canonical in
            let done : ok a ≡ ok (tunneled (label (codes "/" ++ rest)) (codes "/" ++ rest)) =
              sym ea ∙ rw lets_in at answer in
            cc;
      })

  pub live-AllGuarded :
      (us : List Text) (es : List Event) (redirect_url : Text) (allow : List (Text × Option Net))
      → Fits Net parse_cidr inside Known us allow
      → Fair es
      → Returns (live Net parse_cidr inside clean es redirect_url allow) (AllGuarded us es)
  unfolding live
  live-AllGuarded us [] redirect_url allow fits fair = tt
  live-AllGuarded us (listener_fails ∷ es) redirect_url allow fits fair = refl
  live-AllGuarded us (refreshes lookup ∷ es) redirect_url allow fits (known, fair) =
      rw (Fits-inputs Net parse_cidr inside Known us allow fits) (
        Returns-bind (parse_and_lookup Net parse_cidr inside lookup us allow) _
          (Fits Net parse_cidr inside Known us) _
          (parse_and_lookup-Fits Net parse_cidr inside Known lookup us allow known
            (Fits-Old Net parse_cidr inside Known us allow fits))
          λ allow' fits'. live-AllGuarded us es redirect_url allow' fits' fair)
  live-AllGuarded us (arrives r ∷ es) redirect_url allow fits ((host, e), fair) =
      Returns-bind (serve_http Net parse_cidr inside clean allow redirect_url r) _ _ _
        (answer-Guarded us r host redirect_url allow fits e)
        λ a g.
          Returns-bind (live Net parse_cidr inside clean es redirect_url allow) _ _ _
            (live-AllGuarded us es redirect_url allow fits fair) λ answers h. ((host, e, g), h)
