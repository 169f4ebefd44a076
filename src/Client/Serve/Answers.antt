-- ===== src/Client/Serve/Answers.antt =====
-- What a client sends on a connection: client/connection.go and client/middleware.go.
use Prim.Native.String.{String}
use wsp.Base.{
  ℕ, zero, suc, ◌+◌, ◌*◌, ◌≤◌, ◌≡◌, refl, ◌∙◌, ap, Option-cases, inl, inr, Bool, true, false, not,
  List, [], ◌∷◌, Option, none, some, length, length-append, arith, if◌then◌else◌,
}
use wsp.Base.Int.{ℤ, pos}
use wsp.Mulch.Response.{HttpResponse, new_http_response}
use wsp.Client.Serve.{
  Frame, text, binary, Socket, write_message, Op, write_header, write, Adapter, flush,
  do_write_header, write_open, do_write, run_ops, custom_handler,
}

-- How many responses a handler begins; the flag says whether one has begun.
abbrev pub heads : Bool → List Op → ℕ
heads begun [] = 0
heads begun (write_header code ∷ ops) = 1 + heads true ops
heads true (write content ∷ ops) = heads true ops
heads false (write content ∷ ops) = 1 + heads true ops

abbrev begun : Option String → Bool
begun none = false
begun (some b) = true

abbrev pending : Option String → ℕ
pending none = 0
pending (some b) = 1

write_message-sent :
    (f : Frame) (s : Socket)
    → 1 ≤ s.writes
    → let (good, t) = write_message f s in
      (good ≡ true) × (suc t.writes ≡ s.writes) × (length t.sent ≡ suc (length s.sent))
write_message-sent f s room = go s.writes refl
  where
    go :
        (n : ℕ)
        → s.writes ≡ n
        → let (good, t) = write_message f s in
          (good ≡ true) × (suc t.writes ≡ s.writes) × (length t.sent ≡ suc (length s.sent))
    go zero e = absurd (omega (arith, e, room))
    go (suc n) e = rw (e, length-append) (refl, refl, omega arith)

flush-sent :
    (body : Option String) (s : Socket)
    → 1 ≤ s.writes
    → let t = flush body s in
      (t.writes + pending body ≡ s.writes) × (length t.sent ≡ length s.sent + pending body)
flush-sent none s room = (omega arith, omega arith)
flush-sent (some b) s room =
    let h = write_message-sent (binary b) s room in (omega (arith, h.1), omega (arith, h.2))

module _ (marshal : HttpResponse → String) where
  -- The adapter after a head has been written.
  record Wrote (a b : Adapter) : Type 0 where
    good : b.err ≡ false
    opened : begun b.body ≡ true
    left : a.sock.writes ≤ b.sock.writes + 2
    more : length b.sock.sent ≡ suc (length a.sock.sent + pending a.body)

  do_write_header-Wrote :
      (code : ℤ) (a : Adapter) → 2 ≤ a.sock.writes → Wrote a (do_write_header marshal code a)
  unfolding do_write_header
  do_write_header-Wrote code a room =
      let resp : HttpResponse = record a.resp { status_code = code } in
      let f = flush-sent a.body a.sock (omega (arith, room)) in
      let w =
        write_message-sent (text (marshal resp)) (flush a.body a.sock) (pending_room a.body f.0) in
      record {
        good = rw w.0 refl;
        opened = rw w.0 refl;
        left = pending_left a.body f.0 w.1;
        more = omega (arith, w.2, f.1);
      }
    where
      pending_room : (o : Option String) {n : ℕ} → n + pending o ≡ a.sock.writes → 1 ≤ n
      pending_room none e = omega (arith, e, room)
      pending_room (some b) e = omega (arith, e, room)

      pending_left :
          (o : Option String) {n m : ℕ}
          → n + pending o ≡ a.sock.writes
          → suc m ≡ n
          → a.sock.writes ≤ m + 2
      pending_left none e h = omega (arith, e, h)
      pending_left (some b) e h = omega (arith, e, h)

  -- What the rest of a handler sends.
  abbrev Sends : List Op → Adapter → Adapter → Type 0
  Sends ops a b =
      (b.err ≡ false)
      × (length (flush b.body b.sock).sent
          ≡ length a.sock.sent + pending a.body + 2 * heads (begun a.body) ops)

  write_open-same :
      (content : String) (o : Option String) (a : Adapter)
      → a.body ≡ o
      → let b = write_open content o a in
        (b.err ≡ a.err)
        × (b.sock ≡ a.sock)
        × (begun b.body ≡ begun a.body)
        × (pending b.body ≡ pending a.body)
  write_open-same content none a e = (refl, refl, refl, refl)
  write_open-same content (some b) a e = rw e (refl, refl, refl, refl)

  begun-pending : (o : Option String) → begun o ≡ true → pending o ≡ 1
  begun-pending none e = absurd cc
  begun-pending (some b) e = refl

  -- The adapter after a piece of a body has been written.
  record Written (a b : Adapter) : Type 0 where
    good : b.err ≡ false
    opened : begun b.body ≡ true
    left : a.sock.writes ≤ b.sock.writes + 2
    more :
        length b.sock.sent + 1
        ≡ length a.sock.sent + pending a.body + 2 * (if begun a.body then 0 else 1)

  do_write-Written :
      (content : String) (a : Adapter)
      → a.err ≡ false
      → 2 ≤ a.sock.writes
      → Written a (do_write marshal content a)
  unfolding do_write
  do_write-Written content a calm room = elim (Option-cases a.body) [
    | inl e ↦
        let b = do_write_header marshal (pos 200) a in
        let w = do_write_header-Wrote (pos 200) a room in
        let s = write_open-same content b.body b refl in
        rw (e, do_write)
          (record {
            good = s.0 ∙ w.good;
            opened = s.2 ∙ w.opened;
            left = omega (arith, w.left, ap (λ (k : Socket). k.writes) s.1);
            more = omega (arith, w.more, ap pending e, ap (λ (k : Socket). length k.sent) s.1);
          })
    | inr (c, e) ↦
        rw (e, do_write)
          (record { good = calm; opened = refl; left = omega arith; more = omega arith })
  ]

  heads-write :
      (o : Bool) (content : String) (ops : List Op)
      → heads o (write content ∷ ops) ≡ (if o then 0 else 1) + heads true ops
  heads-write true content ops = omega arith
  heads-write false content ops = omega arith

  run_ops-Sends :
      (ops : List Op) (a : Adapter)
      → a.err ≡ false
      → 2 * length ops + 1 ≤ a.sock.writes
      → Sends ops a (run_ops marshal ops a)
  unfolding run_ops
  run_ops-Sends [] a calm room =
      (calm, omega (arith, (flush-sent a.body a.sock (omega (arith, room))).1))
  run_ops-Sends (write_header code ∷ ops) a calm room =
      let w = do_write_header-Wrote code a (omega (arith, room)) in
      let b = do_write_header marshal code a in
      let r = run_ops-Sends ops b w.good (omega (arith, room, w.left)) in
      (
        r.0,
        omega (arith, r.1, w.more, begun-pending b.body w.opened, ap (λ o. heads o ops) w.opened),
      )
  run_ops-Sends (write content ∷ ops) a calm room =
      let w = do_write-Written content a calm (omega (arith, room)) in
      let b = do_write marshal content a in
      let r = run_ops-Sends ops b w.good (omega (arith, room, w.left)) in
      (
        r.0,
        omega (
          arith,
          r.1,
          w.more,
          begun-pending b.body w.opened,
          ap (λ o. heads o ops) w.opened,
          heads-write (begun a.body) content ops,
        ),
      )

  -- Whenever the socket takes two messages for each thing that the handler does, and one more, the
  -- connection is kept, and two messages, a head and a body, are sent for each response that the
  -- handler begins: none for a handler that writes nothing, and two responses for one that writes
  -- the header twice.
  pub custom_handler-heads :
      (ops : List Op) (s : Socket)
      → 2 * length ops + 1 ≤ s.writes
      → let r = custom_handler marshal ops s in
        (r.0 ≡ true) × (length r.1.sent ≡ length s.sent + 2 * heads false ops)
  unfolding custom_handler
  custom_handler-heads ops s room =
      let a : Adapter = record {
        resp = new_http_response (pos 0) (pos 0);
        body = none;
        err = false;
        sock = s;
      } in
      let h = run_ops-Sends ops a refl room in (ap not h.0, omega (arith, h.1))
