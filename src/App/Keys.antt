-- ===== src/App/Keys.antt =====
-- `KeyValidator` of mulery.go: the keys of clients are checked by an nginx auth proxy. The texts of
-- errors and the answers of the proxy are parameters.
pub mod Admission
use Prim.Native.Char.{Char, code}
use Prim.Native.String
use Prim.Native.String.{String}
use text.Mathlib.Text.{◌==◌ as str_eq}
use wsp.Base.{◌||◌, not, ℕ, ◌+◌, Bool, true, false, Option, none, some, ◌==◌, ltb, if◌then◌else◌}
use wsp.Base.Int.{ℤ, pos, negsuc}
use wsp.Server.Handlers.{Try, good, bad, custom_key_failed, Get}

-- `keyLen`
abbrev pub key_len : ℕ
key_len = 36

-- The bytes of a character in UTF-8.
abbrev pub width : ℕ → ℕ
width c = if ltb c 128 then 1 else if ltb c 2048 then 2 else if ltb c 65536 then 3 else 4

-- `len(key)` counts bytes.
unfoldable pub byte_length : String → ℕ
byte_length String.[] = 0
byte_length (String.◌∷◌ c s) = width (code c) + byte_length s

-- The answer of the proxy, without its body.
pub record AuthReply : Type 0 where
  pub status_code : ℤ
  pub status : String

-- The ways in which a key is refused.
pub data KeyError : Type 0 where
  wrong_length : ℕ → KeyError
  not_created not_connected : KeyError
  refused : String → KeyError

-- `Config`, as far as the validator reads it, and what it takes from the HTTP client: whether a
-- request for a URL can be made, and the answer at a URL to a header with a value, if one comes.
pub record Auth : Type 0 where
  pub auth_url : String
  pub auth_header : String
  pub creates : String → Bool
  pub ask : String → String → String → Option AuthReply

abbrev pub is_ok : ℤ → Bool
is_ok (pos n) = n == 200
is_ok (negsuc n) = false

abbrev pub judge : String → Option AuthReply → (KeyError → String) → Try String
judge key none describe = bad (custom_key_failed (describe not_connected))
judge key (some reply) describe =
    if is_ok reply.status_code
    then good key
    else bad (custom_key_failed (describe (refused reply.status)))

-- `KeyValidator`
unfoldable pub key_validator : (KeyError → String) → Auth → Get → Try String
key_validator describe auth get =
    let key = get "x-secret-key" in
    if str_eq key "" || not (byte_length key == key_len)
    then bad (custom_key_failed (describe (wrong_length (byte_length key))))
    else (if auth.creates auth.auth_url
        then judge key (auth.ask auth.auth_url auth.auth_header key) describe
        else bad (custom_key_failed (describe not_created)))
