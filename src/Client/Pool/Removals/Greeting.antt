-- ===== src/Client/Pool/Removals/Greeting.antt =====
-- What a greeting that cannot be sent does to the goroutine of the client's pool.
use wsp.Base.{◌≡◌, refl, sym, ◌∙◌, ap, Bool, true, false}
use wsp.Client.Pool.Removals.{
  Owner, selecting, connecting, removing_itself, receives, replies, Removals, Step, Reach, here,
  next,
}

-- The goroutine is in `Remove`, sending on the channel from which it alone receives.
abbrev pub IsStuck : Removals → Type 0
IsStuck s = s.owner ≡ removing_itself

-- Nothing that receives is meant by `f` at that place.
no_meeting :
    {A : Type 0} (s : Removals) (f : Owner → Bool)
    → IsStuck s
    → f removing_itself ≡ false
    → f s.owner ≡ true
    → A
no_meeting s f v off on = let g : false ≡ true = sym off ∙ sym (ap f v) ∙ on in cc

Step-IsStuck : {s t : Removals} → Step s t → IsStuck s → IsStuck t
Step-IsStuck (Step.fails xs ys at e) v = v
Step-IsStuck (Step.leaves xs ys at e) v = v
Step-IsStuck {s} (Step.takes xs ys at o) v = no_meeting s receives v refl o
Step-IsStuck {s} (Step.answers xs ys at o) v = no_meeting s replies v refl o
Step-IsStuck (Step.dials o) v = let f : selecting ≡ removing_itself = sym o ∙ v in cc
Step-IsStuck (Step.opens o) v = v
Step-IsStuck (Step.rests o) v = let f : connecting ≡ removing_itself = sym o ∙ v in cc
Step-IsStuck (Step.greeting_fails o e) v = refl
Step-IsStuck (Step.greeting_left o e) v = let f : connecting ≡ removing_itself = sym o ∙ v in cc
Step-IsStuck {s} (Step.takes_itself o e) v = no_meeting s receives v refl e
Step-IsStuck {s} (Step.answers_itself o e) v = no_meeting s replies v refl e
Step-IsStuck (Step.shuts e) v = v
Step-IsStuck (Step.finishes o e) v = let f : selecting ≡ removing_itself = sym o ∙ v in cc
Step-IsStuck (Step.wakes xs ys at o) v = v
Step-IsStuck (Step.crashes xs ys at o) v = v

Reach-IsStuck : {s t : Removals} → IsStuck s → Reach s t → IsStuck t
Reach-IsStuck v here = v
Reach-IsStuck v (next r st) = Step-IsStuck st (Reach-IsStuck v r)

-- When the goroutine of a pool that has not been shut down tries to connect, and the greeting
-- cannot be sent, it can get into the `Remove` of its own `Connect`; and from there it is never
-- elsewhere, whatever the connections do and whether the pool is shut down or not.
pub greeting_hangs :
    (s t : Removals)
    → s.owner ≡ selecting
    → s.is_shut ≡ false
    → Reach (record s { owner = removing_itself }) t
    → Reach s (record s { owner = removing_itself }) × IsStuck t
greeting_hangs s t o fresh r =
    (next (next here (Step.dials o)) (Step.greeting_fails refl fresh), Reach-IsStuck refl r)
