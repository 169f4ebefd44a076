-- ===== src/App/Upstreams/Stopping/Closed.antt =====
-- Who is let in while the goroutine of upstreams.go is being stopped.
use mathlib.Core.Path.{subst}
use wsp.Base.{
  ℕ, zero, suc, ◌≡◌, refl, sym, ap, ◌∙◌, ◌≢◌, Bool, true, false, List, [], ◌∷◌, ◌++◌, Option, In,
  Every, Every-at, Every-replace, arith,
}
use wsp.Runtime.{ok, Returns}
use wsp.App.Upstreams.{Text, Lookup, make_ips, contains}
use wsp.App.Upstreams.Access.{Source, Fits, contains-Right, parse_and_lookup-Fits, empty-Old}
use wsp.App.Upstreams.Callers.{LooksUp, Fits-LooksUp}
use wsp.App.Upstreams.Stopping.Waits.{
  waits_in, waits, waits-middle, Asked, none-Asked, waits-replace,
}
use wsp.App.Upstreams.Stopping.{
  Caller, resting, asking, awaiting, got, crashed, selecting, answering, ended, opened, closed,
  uncalled, Desk, Step, Reach, here, next,
}

module _ (Net : Type 0) (parse_cidr : Text → Option Net) (inside : Net → Text → Bool)
    (Known : Lookup → Type 0) (us : List Text) where
  -- A handler that has let an address in has done so for a network of an upstream, or of an address
  -- to which a lookup has resolved one.
  abbrev pub Fine : Caller → Type 0
  Fine (got ip b) =
      b ≡ true
      → (u : Text) × In u us
        × (n : Net) × Source Net parse_cidr inside Known u n
        × (inside n ip ≡ true)
  Fine _ = Unit

  -- What holds while the handlers, the goroutine and `Stop` go on.
  record Orderly (s : Desk Net) : Type 0 where
    fits : Fits Net parse_cidr inside Known us s.entries
    fine : Every Fine s.callers
    one : (ip : Text) → s.owner ≡ answering ip → (waits s.callers ≡ 1) × Every (Asked ip) s.callers
    nobody : s.owner ≡ selecting → s.ask_ip ≡ opened → waits s.callers ≡ 0
    done : s.allow ≡ closed → s.owner ≡ ended
    shut : s.stopper ≢ uncalled → s.ask_ip ≢ opened

  -- A handler moves that neither begins nor ends to wait.
  moves-Orderly :
      (s : Desk Net) (xs ys : List Caller) (c d : Caller)
      → s.callers ≡ xs ++ c ∷ ys
      → waits_in c ≡ waits_in d
      → Fine d
      → ((ip : Text) → Asked ip d)
      → Orderly s
      → Orderly (record s { callers = xs ++ d ∷ ys })
  moves-Orderly s xs ys c d at same fine asked o = record {
    fits = o.fits;
    fine = Every-replace Fine xs c d ys (subst (Every Fine) at o.fine) fine;
    one = λ ip e.
        let (n, all) = o.one ip e in
        (
          waits-replace xs c d ys s.callers at same ∙ n,
          Every-replace (Asked ip) xs c d ys (subst (Every (Asked ip)) at all) (asked ip),
        );
    nobody = λ e f. waits-replace xs c d ys s.callers at same ∙ o.nobody e f;
    done = o.done;
    shut = o.shut;
  }

  Step-Orderly :
      {s t : Desk Net}
      → Step parse_cidr inside (LooksUp Net parse_cidr inside Known) s t
      → Orderly s
      → Orderly t
  Step-Orderly {s} (Step.calls xs ys ip at) o =
      moves-Orderly s xs ys resting (asking ip) at refl tt (λ _. tt) o
  Step-Orderly {s} (Step.takes xs ys ip at e a) o =
      let before = o.nobody e a in
      record {
        fits = o.fits;
        fine = Every-replace Fine xs (asking ip) (awaiting ip) ys (subst (Every Fine) at o.fine) tt;
        one = λ q f.
            let same : ip ≡ q = cc in
            (
              omega (
                arith,
                before,
                ap waits at,
                waits-middle xs (asking ip) ys,
                waits-middle xs (awaiting ip) ys,
              ),
              Every-replace (Asked q) xs (asking ip) (awaiting ip) ys
                  (none-Asked q (xs ++ asking ip ∷ ys) (sym (ap waits at) ∙ before)) same,
            );
        nobody = λ f _. cc;
        done = λ f. let ended_before = o.done f in cc;
        shut = o.shut;
      }
  Step-Orderly {s} (Step.answers xs ys ip asked at e a) o =
      let (n, all) = o.one asked e in
      let own : ip ≡ asked =
        Every-at (Asked asked) xs (awaiting ip) ys (subst (Every (Asked asked)) at all) in
      record {
        fits = o.fits;
        fine =
            Every-replace Fine xs (awaiting ip)
              (got ip (contains Net parse_cidr inside s.entries asked)) ys
              (subst (Every Fine) at o.fine)
              (subst (λ q. Fine (got q (contains Net parse_cidr inside s.entries asked))) (sym own)
                (contains-Right Net parse_cidr inside Known us s.entries asked o.fits).justified);
        one = λ q f. cc;
        nobody = λ f g. omega (
          arith,
          n,
          ap waits at,
          waits-middle xs (awaiting ip) ys,
          waits-middle xs (got ip (contains Net parse_cidr inside s.entries asked)) ys,
        );
        done = λ f. cc;
        shut = o.shut;
      }
  Step-Orderly {s} (Step.ticks es e l) o = record {
    fits = Fits-LooksUp Net parse_cidr inside Known us s.entries es l o.fits;
    fine = o.fine;
    one = o.one;
    nobody = o.nobody;
    done = o.done;
    shut = o.shut;
  }
  Step-Orderly {s} (Step.closes u a) o = record {
    fits = o.fits;
    fine = o.fine;
    one = o.one;
    nobody = λ f g. cc;
    done = o.done;
    shut = λ _ g. cc;
  }
  Step-Orderly {s} (Step.crashes xs ys ip at a) o =
      moves-Orderly s xs ys (asking ip) crashed at refl tt (λ _. tt) o
  Step-Orderly {s} (Step.ends e a b) o = record {
    fits = o.fits;
    fine = o.fine;
    one = λ q f. cc;
    nobody = λ f g. cc;
    done = λ _. refl;
    shut = λ _ g. cc;
  }
  Step-Orderly {s} (Step.panics e a b) o = record {
    fits = o.fits;
    fine = o.fine;
    one = λ q f. cc;
    nobody = λ f g. cc;
    done = λ f. cc;
    shut = λ _ g. cc;
  }
  Step-Orderly {s} (Step.denied xs ys ip at a) o =
      let over = o.done a in
      record {
        fits = o.fits;
        fine =
            Every-replace Fine xs (awaiting ip) (got ip false) ys (subst (Every Fine) at o.fine)
              (λ f. cc);
        one = λ q f. cc;
        nobody = λ f g. cc;
        done = o.done;
        shut = o.shut;
      }
  Step-Orderly {s} (Step.steals asked e w a) o = record {
    fits = o.fits;
    fine = o.fine;
    one = λ q f. cc;
    nobody = λ f g. absurd (o.shut (λ u. cc) g);
    done = λ f. cc;
    shut = λ _. o.shut (λ u. cc);
  }
  Step-Orderly {s} (Step.finishes w a) o = record {
    fits = o.fits;
    fine = o.fine;
    one = o.one;
    nobody = o.nobody;
    done = λ f. cc;
    shut = λ _. o.shut (λ u. cc);
  }

  Reach-Orderly :
      {s t : Desk Net}
      → Orderly s
      → Reach parse_cidr inside (LooksUp Net parse_cidr inside Known) s t
      → Orderly t
  Reach-Orderly o here = o
  Reach-Orderly o (next r st) = Step-Orderly st (Reach-Orderly o r)

-- As many handlers, of which none has called `Contains`.
abbrev pub idle : ℕ → List Caller
idle zero = []
idle (suc n) = resting ∷ idle n

waits-idle : (n : ℕ) → waits (idle n) ≡ 0
waits-idle zero = refl
waits-idle (suc n) = omega (arith, waits-idle n)

-- The goroutine has been started on the table.
abbrev pub desk : {Net : Type 0} → ℕ → List (Text × Option Net) → Desk Net
desk n es = record {
  entries = es;
  callers = idle n;
  owner = selecting;
  ask_ip = opened;
  allow = opened;
  stopper = uncalled;
}

module _ (Net : Type 0) (parse_cidr : Text → Option Net) (inside : Net → Text → Bool)
    (Known : Lookup → Type 0) (us : List Text) where
  idle-Fine : (n : ℕ) → Every (Fine Net parse_cidr inside Known us) (idle n)
  idle-Fine zero = tt
  idle-Fine (suc n) = (tt, idle-Fine n)

  -- The table is one that `MakeIPs` has made. However the handlers that call `Contains`, the ticks
  -- with their known lookups and a call of `Stop` interleave: a handler that is told to let its
  -- address in is told so of an address in a network of an upstream, or of an address to which a
  -- known lookup has resolved one.
  pub desk-Fine :
      (first : Lookup) (es : List (Text × Option Net)) (n : ℕ) (t : Desk Net)
      → Known first
      → make_ips Net parse_cidr inside first us ≡ ok es
      → Reach parse_cidr inside (LooksUp Net parse_cidr inside Known) (desk n es) t
      → Every (Fine Net parse_cidr inside Known us) t.callers
  unfolding make_ips
  desk-Fine first es n t known e r =
      (Reach-Orderly Net parse_cidr inside Known us
        (record {
          fits =
              subst (λ m. Returns m (Fits Net parse_cidr inside Known us)) e
                (parse_and_lookup-Fits Net parse_cidr inside Known first us _ known
                  (empty-Old Net parse_cidr inside Known us));
          fine = idle-Fine n;
          one = λ ip f. cc;
          nobody = λ _ _. waits-idle n;
          done = λ f. cc;
          shut = λ u. absurd (u refl);
        })
        r).fine
