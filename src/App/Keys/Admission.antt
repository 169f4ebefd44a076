-- ===== src/App/Keys/Admission.antt =====
-- Which clients mulery.go lets register.
use Prim.Native.String.{String}
use mathlib.Core.Path.{subst}
use text.Mathlib.Text.{◌==◌ as str_eq}
use text.Mathlib.TextEquality.{eq_iff}
use wsp.Base.{
  ◌≡◌, refl, ap, ◌∙◌, ◌<◌, Bool, true, false, ◌&&◌, [], ◌++◌, Option, none, some, ◌==◌, length,
  if◌then◌else◌, Bool-cases, inl, inr,
}
use wsp.Mulch.{Handshake}
use wsp.Runtime.{Returns, Returns-mono}
use wsp.Server.Handlers.{HandlerError, good, Get, HandlerConfig, Front, Upgrade, handle_register}
use wsp.Server.Handlers.Registrations.{queued, validate_key-custom, handle_register-judged}
use wsp.App.Keys.{key_len, byte_length, AuthReply, KeyError, Auth, is_ok, judge, key_validator}

abbrev answers_ok : Option AuthReply → Bool
answers_ok none = false
answers_ok (some reply) = is_ok reply.status_code

-- The key has the right length, and the proxy answers it with status 200.
abbrev pub is_authorized : Auth → String → Bool
is_authorized auth key =
    (byte_length key == key_len)
    && (auth.creates auth.auth_url && answers_ok (auth.ask auth.auth_url auth.auth_header key))

abbrev pub key_of : Get → String
key_of get = get "x-secret-key"

-- A key of the right length is not empty.
nonempty : (key : String) → (byte_length key == key_len) ≡ true → str_eq key "" ≡ false
unfolding byte_length
nonempty key h = elim (Bool-cases (str_eq key "")) [
  | inr e ↦ e
  | inl e ↦
      let f : (byte_length "" == key_len) ≡ true =
        subst (λ k. (byte_length k == key_len) ≡ true) ((eq_iff key "").0 e) h in
      cc
]

module _ (describe_key : KeyError → String) (auth : Auth) (get : Get) where
  -- The verdict as a queue.
  judge-queued :
      (key : String) (reply : Option AuthReply) (upgrade : Upgrade) (greeting : Option Handshake)
      → queued (judge key reply describe_key) upgrade greeting
        ≡ (if answers_ok reply then queued (good key) upgrade greeting else [])
  judge-queued key none upgrade greeting = refl
  judge-queued key (some reply) upgrade greeting = elim (Bool-cases (is_ok reply.status_code)) [
    | inl e ↦ rw e refl
    | inr e ↦ rw e refl
  ]

  key_validator-queued :
      (upgrade : Upgrade) (greeting : Option Handshake)
      → queued (key_validator describe_key auth get) upgrade greeting ≡ (
          if is_authorized auth (key_of get)
          then queued (good (key_of get)) upgrade greeting
          else [])
  unfolding key_validator
  key_validator-queued upgrade greeting =
      elim (Bool-cases (byte_length (get "x-secret-key") == key_len)) [
        | inr e ↦ elim (Bool-cases (str_eq (get "x-secret-key") "")) [
          | inl g ↦ rw (e, g) refl
          | inr g ↦ rw (e, g) refl
        ]
        | inl e ↦ elim (Bool-cases (auth.creates auth.auth_url)) [
          | inr f ↦ rw (e, nonempty (get "x-secret-key") e, f) refl
          | inl f ↦
              rw (e, nonempty (get "x-secret-key") e, f)
                (judge-queued (get "x-secret-key")
                  (auth.ask auth.auth_url auth.auth_header (get "x-secret-key")) upgrade greeting)
        ]
      ]

-- With the validator of the application, a peer that asks to be registered while the queue has room
-- is queued exactly if it has sent a key of 36 bytes for which the auth proxy answers with status
-- 200, has been upgraded and has sent its greeting; the secret of its pool is then the key that it
-- has sent.
pub handle_register-authorized :
    (describe_key : KeyError → String) (auth : Auth) (describe : HandlerError → String)
    (config : HandlerConfig) (get : Get) (upgrade : Upgrade) (greeting : Option Handshake)
    (f : Front)
    → config.key_validator ≡ some (key_validator describe_key auth)
    → f.new_pool.is_open ≡ true
    → length f.new_pool.buffer < f.new_pool.cap
    → Returns (handle_register describe config get upgrade greeting f) (λ r.
      r.front.new_pool.buffer
      ≡ f.new_pool.buffer
        ++ (if is_authorized auth (key_of get)
            then queued (good (key_of get)) upgrade greeting
            else []))
handle_register-authorized describe_key auth describe config get upgrade greeting f e up room =
    Returns-mono (handle_register describe config get upgrade greeting f) _ _
      (handle_register-judged describe config get upgrade greeting f up room)
      λ r h.
        h.0
        ∙ ap (λ key. f.new_pool.buffer ++ queued key upgrade greeting)
            (validate_key-custom config get (key_validator describe_key auth) e)
        ∙ ap (λ l. f.new_pool.buffer ++ l)
            (key_validator-queued describe_key auth get upgrade greeting)
