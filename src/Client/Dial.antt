-- ===== src/Client/Dial.antt =====
-- What a client says of itself: `Connect` of client/connection.go and `GetID` of client/client.go.
use Prim.Native.String.{String}
use text.Mathlib.Text.{◌==◌ as str_eq}
use wsp.Base.{if◌then◌else◌}
use wsp.Mulch.{Handshake, hash_key_id}
use wsp.Client.Config.{Config}

-- The header with which `Connect` dials, as `http.Header.Get` reads it.
abbrev pub dial_header : Config → String → String
dial_header c name = if str_eq name "x-secret-key" then c.secret_key else ""

-- The greeting that `Connect` sends.
unfoldable pub greeting_of : Config → Handshake
greeting_of c = record {
  size = c.pool_idle_size;
  max_size = c.pool_max_size;
  id = c.id;
  name = c.name;
  compress = "";
  client_ids = c.client_ids;
}

-- `GetID`
unfoldable pub get_id : (String → String) → Config → String
get_id sha256_hex c = hash_key_id sha256_hex c.secret_key c.id
