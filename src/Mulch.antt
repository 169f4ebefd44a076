-- ===== src/Mulch.antt =====
-- mulch/*.go: what the client and the server share.
pub mod Logger
pub mod Response
pub mod Request
use Prim.Native.String.{String, ◌++◌}
use text.Mathlib.Text.{◌==◌}
use wsp.Base.{List, if◌then◌else◌}
use wsp.Base.Int.{ℤ}

-- The greeting of a client; `client_ids` holds the JSON text of each value.
pub record Handshake : Type 0 where
  pub size : ℤ
  pub max_size : ℤ
  pub id : String
  pub name : String
  pub compress : String
  pub client_ids : List String

-- `HashKeyID`; `sha256_hex` is the standard library's digest, in hexadecimal digits.
unfoldable pub hash_key_id : (String → String) → String → String → String
hash_key_id sha256_hex secret client_id =
    if secret == "" then client_id else sha256_hex (secret ++ client_id)
