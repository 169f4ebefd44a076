-- ===== src/Server/Handlers/Registrations.antt =====
-- What `HandleRegister` of server/handlers.go does for a peer.
use Prim.Native.String.{String}
use package.text.Mathlib.Text.{◌==◌ as str_eq}
use mathlib.Core.List.{append-nil}
use mathlib.Core.Path.{subst}
use text.Mathlib.TextEquality.{eq_iff}
use wsp.Base.{
  ◌≢◌, inl, inr, Option-cases, Bool-cases, ℕ, suc, ◌+◌, ◌<◌, ◌≡◌, refl, sym, ap, ◌∙◌, Bool, true,
  false, List, [], ◌∷◌, ◌++◌, Option, none, some, length, lt→ltb, arith,
}
use wsp.Mulch.{Handshake}
use wsp.Runtime.{Chan, Returns}
use wsp.Server.Dispatch.{PoolConfig}
use wsp.Server.Proxy.{Writer}
use wsp.Server.Handlers.Requests.{Try-cases}
use wsp.Server.Handlers.{
  HandlerError, Try, good, bad, Get, HandlerConfig, Front, count_reg, add_reg, proxy_error,
  validate_key, Registration, Upgrade, has_socket, turned_down, admit, handle_register,
  greeting_failed, upgrade_failed, invalid_key,
}

abbrev pub total_regs : List (String × ℕ) → ℕ
total_regs [] = 0
total_regs (e ∷ m) = e.1 + total_regs m

total_regs-count_reg :
    (state : String) (m : List (String × ℕ)) → total_regs (count_reg state m) ≡ suc (total_regs m)
unfolding count_reg
total_regs-count_reg state [] = omega arith
total_regs-count_reg state ((k, n) ∷ m) = ground (arith, total_regs-count_reg state m)

-- One more registration is counted, if any are.
abbrev pub OneMore : Option (List (String × ℕ)) → Option (List (String × ℕ)) → Type 0
OneMore none after = after ≡ none
OneMore (some m) after =
    (n : List (String × ℕ)) × (after ≡ some n) × (total_regs n ≡ suc (total_regs m))

-- What a peer that asks to be registered adds to the queue.
abbrev pub queued : Try String → Upgrade → Option Handshake → List PoolConfig
queued (good secret) has_socket (some g) = record { handshake = g; secret = secret } ∷ []
queued _ _ _ = []

-- The upgraded socket of a peer without a greeting is closed.
abbrev pub drops_sock : Try String → Upgrade → Option Handshake → Bool
drops_sock (good secret) has_socket none = true
drops_sock _ _ _ = false

-- The answer to the peer: what a failed upgrade has sent, and nothing else.
abbrev pub left_answer : Try String → Upgrade → Writer → Writer
left_answer (good secret) (turned_down reply) w = reply w
left_answer _ _ w = w

-- The key of a request, judged by the validator of the application, or else by the configured key;
-- the first gives the secret.
pub data Judged (config : HandlerConfig) (get : Get) : Try String → Type 0 where
  by_validator :
      (validator : Get → Try String)
      → config.key_validator ≡ some validator
      → Judged config get (validator get)
  right_key :
      config.key_validator ≡ none
      → get "x-secret-key" ≡ config.secret_key
      → Judged config get (good "")
  wrong_key :
      config.key_validator ≡ none
      → get "x-secret-key" ≢ config.secret_key
      → Judged config get (bad invalid_key)

add_reg-OneMore : (state : String) (f : Front) → OneMore f.regs (add_reg state f).regs
add_reg-OneMore state f = go f.regs refl
  where
    go : (r : Option (List (String × ℕ))) → f.regs ≡ r → OneMore r (add_reg state f).regs
    go none e = ground arith
    go (some m) e = (count_reg state m, ground arith, total_regs-count_reg state m)

add_reg-rest :
    (state : String) (f : Front)
    → ((add_reg state f).writer ≡ f.writer) × ((add_reg state f).new_pool ≡ f.new_pool)
add_reg-rest state f = (ground arith, ground arith)

-- What `HandleRegister` has done for a peer whose key was judged so.
abbrev pub IsRegistered : Try String → Upgrade → Option Handshake → Front → Registration → Type 0
IsRegistered key upgrade greeting f r =
    (r.front.new_pool.buffer ≡ f.new_pool.buffer ++ queued key upgrade greeting)
    × (r.sock_closed ≡ drops_sock key upgrade greeting)
    × OneMore f.regs r.front.regs
    × (r.front.writer ≡ left_answer key upgrade f.writer)

module _ (describe : HandlerError → String) (f : Front) where
  -- A failed registration counts under its label and changes nothing else.
  failed_registration :
      (e : HandlerError) (state : String) (closed : Bool)
      → str_eq state "" ≡ false
      → let r : Registration = record {
        front = proxy_error describe e state f;
        sock_closed = closed;
      } in
        (r.front.new_pool.buffer ≡ f.new_pool.buffer ++ [])
        × (r.sock_closed ≡ closed)
        × OneMore f.regs r.front.regs
        × (r.front.writer ≡ f.writer)
  unfolding proxy_error
  failed_registration e state closed named = rw named (
    ap (λ (c : Chan PoolConfig). c.buffer) (add_reg-rest state f).1
        ∙ sym (append-nil f.new_pool.buffer),
    refl,
    add_reg-OneMore state f,
    (add_reg-rest state f).0,
  )

admit-IsRegistered :
    (describe : HandlerError → String) (f : Front) (secret : String) (upgrade : Upgrade)
    (greeting : Option Handshake)
    → f.new_pool.is_open ≡ true
    → length f.new_pool.buffer < f.new_pool.cap
    → Returns
        (admit describe secret upgrade greeting f)
        (IsRegistered (good secret) upgrade greeting f)
unfolding admit
admit-IsRegistered describe f secret (turned_down reply) greeting up room =
    failed_registration describe (record f { writer = reply f.writer }) upgrade_failed
      "upgradeFailed" false refl
admit-IsRegistered describe f secret has_socket none up room =
    failed_registration describe f greeting_failed "greetingFailed" true refl
admit-IsRegistered describe f secret has_socket (some g) up room =
    rw (up, lt→ltb _ _ room)
      (
        ap (λ (c : Chan PoolConfig). c.buffer) (add_reg-rest "success" _).1,
        refl,
        add_reg-OneMore "success" _,
        (add_reg-rest "success" _).0,
      )

kept : (t : Try String) → (elim t [ good secret ↦ good secret | bad e ↦ bad e ]) ≡ t
kept (good secret) = refl
kept (bad e) = refl

pub validate_key-custom :
    (config : HandlerConfig) (get : Get) (validator : Get → Try String)
    → config.key_validator ≡ some validator
    → validate_key config get ≡ validator get
unfolding validate_key
validate_key-custom config get validator e = simp (e, validate_key) (kept (validator get))

validate_key-Judged :
    (config : HandlerConfig) (get : Get) → Judged config get (validate_key config get)
unfolding validate_key
validate_key-Judged config get = elim (Option-cases config.key_validator) [
  | inr (v, e) ↦
      subst (Judged config get) (sym (validate_key-custom config get v e)) (by_validator v e)
  | inl e ↦ elim (Bool-cases (str_eq (get "x-secret-key") config.secret_key)) [
    | inl same ↦
        subst (Judged config get) (sym (simp (e, same, validate_key) refl))
          (right_key e ((eq_iff _ _).0 same))
    | inr other ↦
        subst (Judged config get) (sym (simp (e, other, validate_key) refl)) (
          wrong_key e
            (λ same. let yes = (eq_iff _ _).1 same in absurd (ground (arith, yes, other))))
  ]
]

pub handle_register-judged :
    (describe : HandlerError → String) (config : HandlerConfig) (get : Get) (upgrade : Upgrade)
    (greeting : Option Handshake) (f : Front)
    → f.new_pool.is_open ≡ true
    → length f.new_pool.buffer < f.new_pool.cap
    → Returns
        (handle_register describe config get upgrade greeting f)
        (IsRegistered (validate_key config get) upgrade greeting f)
unfolding handle_register
handle_register-judged describe config get upgrade greeting f up room =
    elim (Try-cases (validate_key config get)) [
      | inr (e, h) ↦
          rw (h, handle_register) (failed_registration describe f e "keyFailed" false refl)
      | inl (secret, h) ↦
          rw (h, handle_register) (admit-IsRegistered describe f secret upgrade greeting up room)
    ]

-- Whatever a peer sends to `HandleRegister` while the queue has room, the call returns and counts
-- one registration, if there are metrics. The key is judged by the validator, or if there is none
-- it is right exactly if it is the configured one. The call queues a pool exactly for a peer whose
-- key is right, which has been upgraded and has sent its greeting, with the secret that the
-- validator gave; it closes the upgraded socket of one that has not sent it. It answers nothing
-- itself, so that a peer with a wrong key gets no error status: only a failed upgrade may answer.
pub handle_register-IsRegistered :
    (describe : HandlerError → String) (config : HandlerConfig) (get : Get) (upgrade : Upgrade)
    (greeting : Option Handshake) (f : Front)
    → f.new_pool.is_open ≡ true
    → length f.new_pool.buffer < f.new_pool.cap
    → (key : Try String) × Judged config get key
      × Returns
          (handle_register describe config get upgrade greeting f)
          (IsRegistered key upgrade greeting f)
handle_register-IsRegistered describe config get upgrade greeting f up room = (
  validate_key config get,
  validate_key-Judged config get,
  handle_register-judged describe config get upgrade greeting f up room,
)
