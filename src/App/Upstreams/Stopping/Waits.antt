-- ===== src/App/Upstreams/Stopping/Waits.antt =====
-- The handlers of upstreams.go that wait for an answer.
use wsp.Base.{ℕ, ◌+◌, ◌≡◌, refl, List, [], ◌∷◌, ◌++◌, Every, arith}
use wsp.App.Upstreams.{Text}
use wsp.App.Upstreams.Stopping.{Caller, resting, asking, awaiting, got, crashed}

-- How many handlers wait for an answer.
abbrev pub waits_in : Caller → ℕ
waits_in (awaiting ip) = 1
waits_in _ = 0

abbrev pub waits : List Caller → ℕ
waits [] = 0
waits (c ∷ cs) = waits_in c + waits cs

pub waits-middle :
    (xs : List Caller) (c : Caller) (ys : List Caller)
    → waits (xs ++ c ∷ ys) ≡ waits_in c + waits (xs ++ ys)
waits-middle [] c ys = refl
waits-middle (x ∷ xs) c ys = omega (arith, waits-middle xs c ys)

-- Whoever waits has sent this address.
abbrev pub Asked : Text → Caller → Type 0
Asked ip (awaiting q) = q ≡ ip
Asked ip _ = Unit

pub none-Asked : (ip : Text) (cs : List Caller) → waits cs ≡ 0 → Every (Asked ip) cs
none-Asked ip [] e = tt
none-Asked ip (awaiting q ∷ cs) e = absurd (omega (arith, e))
none-Asked ip (resting ∷ cs) e = (tt, none-Asked ip cs (omega (arith, e)))
none-Asked ip (asking q ∷ cs) e = (tt, none-Asked ip cs (omega (arith, e)))
none-Asked ip (got q b ∷ cs) e = (tt, none-Asked ip cs (omega (arith, e)))
none-Asked ip (crashed ∷ cs) e = (tt, none-Asked ip cs (omega (arith, e)))

-- Another caller in the middle that waits as little.
pub waits-replace :
    (xs : List Caller) (c d : Caller) (ys l : List Caller)
    → l ≡ xs ++ c ∷ ys
    → waits_in c ≡ waits_in d
    → waits (xs ++ d ∷ ys) ≡ waits l
waits-replace xs c d ys l at e =
    rw at (omega (arith, waits-middle xs c ys, waits-middle xs d ys, e))
