-- ===== src/App/Upstreams/Callers.antt =====
-- The handlers of upstreams.go that call `Contains` at the same time.
use mathlib.Core.Path.{subst}
use wsp.Base.{ℕ, ◌≡◌, sym, Bool, List, [], ◌∷◌, map, Option, Every}
use wsp.Runtime.{ok, Returns}
use wsp.Rendezvous.{Caller, got, Calls, Reach, started}
use wsp.Rendezvous.Own.{started-IsServed, HasOwn}
use wsp.App.Upstreams.{Text, Lookup, Entry, parse_and_lookup, make_ips, contains}
use wsp.App.Upstreams.Access.{
  Fits, Fits-Old, Fits-inputs, empty-Old, parse_and_lookup-Fits, Right, contains-Right,
}

module _ (Net : Type 0) (parse_cidr : Text → Option Net) (inside : Net → Text → Bool)
    (Known : Lookup → Type 0) where
  -- The tick of the goroutine, at which names are looked up again.
  abbrev pub LooksUp :
      List (Entry Net parse_cidr inside) → List (Entry Net parse_cidr inside) → Type 0
  LooksUp es fs =
      (lookup : Lookup) × Known lookup
      × (parse_and_lookup Net parse_cidr inside lookup (map (λ e. e.0) es) es ≡ ok fs)

  -- What a caller has been told of its own address is right.
  abbrev pub IsRight : List Text → Caller (List (Entry Net parse_cidr inside)) Text Bool → Type 0
  IsRight us (got es ip b) = Right Net parse_cidr inside Known us ip b
  IsRight us _ = Unit

  pub Fits-LooksUp :
      (us : List Text) (es fs : List (Entry Net parse_cidr inside))
      → LooksUp es fs
      → Fits Net parse_cidr inside Known us es
      → Fits Net parse_cidr inside Known us fs
  Fits-LooksUp us es fs (lookup, known, e) f =
      subst (λ r. Returns r (Fits Net parse_cidr inside Known us)) e
        (rw (Fits-inputs Net parse_cidr inside Known us es f) (
          parse_and_lookup-Fits Net parse_cidr inside Known lookup us es known
            (Fits-Old Net parse_cidr inside Known us es f)))

  HasOwn-IsRight :
      (us : List Text) (cs : List (Caller (List (Entry Net parse_cidr inside)) Text Bool))
      → Every
          (HasOwn (contains Net parse_cidr inside) LooksUp (Fits Net parse_cidr inside Known us))
          cs
      → Every (IsRight us) cs
  HasOwn-IsRight us [] h = tt
  HasOwn-IsRight us (got es ip b ∷ cs) h = (
    subst (Right Net parse_cidr inside Known us ip) (sym h.0.1)
        (contains-Right Net parse_cidr inside Known us es ip h.0.0),
    HasOwn-IsRight us cs h.1,
  )
  HasOwn-IsRight us (Caller.resting ∷ cs) h = (tt, HasOwn-IsRight us cs h.1)
  HasOwn-IsRight us (Caller.asking q ∷ cs) h = (tt, HasOwn-IsRight us cs h.1)
  HasOwn-IsRight us (Caller.awaiting q ∷ cs) h = (tt, HasOwn-IsRight us cs h.1)

  -- However many handlers call `Contains` at the same time, and however their calls interleave with
  -- one another and with the ticks: each is told of its own address, and what it is told is right.
  -- An address that is let in lies in a network of an upstream, or of an address to which a lookup
  -- has resolved one; and an address in the network of an upstream is let in.
  pub callers-IsRight :
      (first : Lookup) (us : List Text) (es : List (Entry Net parse_cidr inside)) (n : ℕ)
      (t : Calls (List (Entry Net parse_cidr inside)) Text Bool)
      → Known first
      → make_ips Net parse_cidr inside first us ≡ ok es
      → Reach (contains Net parse_cidr inside) LooksUp (started n es) t
      → Every (IsRight us) t.callers
  unfolding make_ips
  callers-IsRight first us es n t known e r =
      HasOwn-IsRight us t.callers
        (started-IsServed (contains Net parse_cidr inside) LooksUp
          (Fits Net parse_cidr inside Known us) (Fits-LooksUp us) n es t
          (subst (λ m. Returns m (Fits Net parse_cidr inside Known us)) e
            (parse_and_lookup-Fits Net parse_cidr inside Known first us _ known
              (empty-Old Net parse_cidr inside Known us)))
          r).own
