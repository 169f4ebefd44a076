-- ===== src/Server/Dispatch/Clean/Tables.antt =====
-- The pools that `cleanPools` of server/server.go keeps, as a map.
use Prim.Native.String.{String}
use mathlib.Core.List.{append_assoc, append-nil}
use mathlib.Core.Path.{subst}
use wsp.Base.{◌≡◌, refl, sym, ap, Bool, true, false, List, [], ◌∷◌, ◌++◌, Distinct, Distinct-remove}
use wsp.Base.Keys.{keys, IsMap}
use wsp.Runtime.{Result, ok, panics, blocks, ◌>>=◌, WhenOk, WhenOk-bind, WhenOk-any, value_or}
use wsp.Server.Pool.{Pool}
use wsp.Server.Pool.Keeper.{is_empty, shut_down, ask_for_size}
use wsp.Server.Dispatch.{World, Tally}
use wsp.Server.Dispatch.Clean.Shares.{Share, gone, left, survey, share, apply, run}

keys-append : {V : Type 0} (xs ys : List (String × V)) → keys (xs ++ ys) ≡ keys xs ++ keys ys
keys-append [] ys = refl
keys-append (x ∷ xs) ys = ap (λ l. x.0 ∷ l) (keys-append xs ys)

-- A pool that is left keeps its key.
abbrev Named : String → Share → Type 0
Named key (gone n) = Unit
Named key (left k r ps) = k ≡ key

survey-Named : (w : World) (entry : String × Pool) → WhenOk (survey w entry) (Named entry.0)
unfolding survey
survey-Named w entry =
    WhenOk-bind (is_empty w.remote w.clock entry.1) _ (λ _. Unit {0}) (Named entry.0)
      (WhenOk-any (is_empty w.remote w.clock entry.1)) λ x _. after x.0 x.1
  where
    after :
        (empty : Bool) (q : Pool)
        → WhenOk
            (elim empty [
              | true ↦ do r ← shut_down w.remote q; ok (gone r.closed_count)
              | false ↦ do (ps, r) ← ask_for_size w.remote w.now q; ok (left entry.0 r ps)
            ])
            (Named entry.0)
    after true q =
        WhenOk-bind (shut_down w.remote q) _ (λ _. Unit {0}) _ (WhenOk-any (shut_down w.remote q))
          λ _ _. tt
    after false q =
        WhenOk-bind (ask_for_size w.remote w.now q) _ (λ _. Unit {0}) _
          (WhenOk-any (ask_for_size w.remote w.now q)) λ _ _. refl

value_or-Named :
    (key : String) (m : Result Share) → WhenOk m (Named key) → Named key (value_or (gone 0) m)
value_or-Named key (ok d) h = h
value_or-Named key (panics e) h = tt
value_or-Named key blocks h = tt

-- What is kept and what is still to come have the keys of one map.
apply-IsMap :
    (d : Share) (entry : String × Pool) (rest : List (String × Pool)) (t : Tally)
    → Named entry.0 d
    → IsMap (t.kept ++ entry ∷ rest)
    → IsMap ((apply d t).kept ++ rest)
unfolding apply
apply-IsMap (gone n) entry rest t named m = subst Distinct (sym (keys-append t.kept rest)) (
    Distinct-remove (keys t.kept) entry.0 (keys rest)
      (subst Distinct (keys-append t.kept (entry ∷ rest)) m))
apply-IsMap (left k r ps) entry rest t named m =
    subst IsMap (sym (append_assoc t.kept ((k, r) ∷ []) rest)) (
      subst Distinct (sym (keys-append t.kept ((k, r) ∷ rest))) (
        subst (λ key. Distinct (keys t.kept ++ key ∷ keys rest)) (sym named)
          (subst Distinct (keys-append t.kept (entry ∷ rest)) m)))

pub shares-IsMap :
    (w : World) (pools : List (String × Pool)) (t : Tally)
    → IsMap (t.kept ++ pools)
    → IsMap (run w pools t).kept
unfolding run share
shares-IsMap w [] t m = subst IsMap (append-nil t.kept) m
shares-IsMap w (entry ∷ rest) t m = shares-IsMap w rest (apply (share w entry) t) (
    apply-IsMap (share w entry) entry rest t
      (value_or-Named entry.0 (survey w entry) (survey-Named w entry)) m)
