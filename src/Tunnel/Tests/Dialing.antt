-- ===== src/Tunnel/Tests/Dialing.antt =====
-- A client that dials a new server.
use wsp.Base.{◌≡◌, refl, true, [], ◌∷◌, none, some, arith}
use wsp.Base.Int.{pos, inc_int}
use wsp.Base.Maps.{at}
use wsp.Mulch.{hash_key_id}
use wsp.Runtime.{Returns}
use Prim.Native.String.{String}
use wsp.Client.Config.{Config, second}
use wsp.Client.Dial.{greeting_of}
use wsp.Server.Pool.{Pool, absent, new_pool}
use wsp.Server.Proxy.{new_writer}
use wsp.Server.Dispatch.{new_server, pool_for}
use wsp.App.Keys.{byte_length, KeyError, Auth, key_validator}
use wsp.App.Keys.Admission.{is_authorized}
use wsp.Tunnel.Dialing.{Site, dial, Reaches, dial-Reaches}

abbrev client : Config
client = record {
  name = "first";
  id = "one";
  client_ids = [];
  targets = "ws://127.0.0.1:8080/register" ∷ [];
  pool_idle_size = pos 1;
  pool_max_size = pos 3;
  secret_key = "12345678-1234-1234-1234-123456789abc";
  clean_interval = second;
  backoff = second;
  max_backoff = second;
  backoff_reset = second;
  round_robin = none;
}

-- An auth proxy that accepts every key.
abbrev auth : Auth
auth = record {
  auth_url = "http://localhost/auth";
  auth_header = "x-api-key";
  creates = λ url. true;
  ask = λ url header key. some (record { status_code = pos 200; status = "200 OK" });
}

abbrev describe_key : KeyError → String
describe_key e = "refused"

abbrev site : Site
site = record {
  describe_key = describe_key;
  auth = auth;
  describe = λ e. "failed";
  config = record {
    secret_key = "";
    id_header = "x-id";
    key_validator = some (key_validator describe_key auth);
  };
  wire = some;
  front = record {
    writer = new_writer;
    regs = none;
    new_pool = record { buffer = []; cap = 100; is_open = true };
  };
  world = record {
    sha256_hex = λ s. "hash";
    chan_limit = 1000;
    remote = λ c. "10.0.0.1:80";
    now = 8;
    clock = λ c. 8;
  };
}

abbrev first_pool : Pool
first_pool = record {
  connected = 8;
  handshake = record {
    size = pos 1;
    max_size = pos 3;
    id = "one";
    name = "first";
    compress = "";
    client_ids = [];
  };
  min_size = pos 2;
  idle_timeout = 60;
  id = "hash [first]";
  connections = [];
  closed_count = 0;
  idle_chan = record { buffer = []; cap = 4; is_open = true };
  new_conn = true;
  ask_clean = true;
  ask_size = true;
  get_size = true;
  heap = λ _. absent;
  made = 0;
}

dial-Reaches_example :
    Returns
      (dial site client (new_server 1 60))
      (Reaches site client (new_server 1 60) 9 0 (is_authorized auth client.secret_key))
unfolding new_server greeting_of inc_int pool_for at new_pool hash_key_id
dial-Reaches_example =
    dial-Reaches site client (new_server 1 60) first_pool 9 0 refl refl (refl, refl, omega arith) tt
      (4, refl, omega arith) refl (omega arith) (omega arith)

accepted : is_authorized auth client.secret_key ≡ true
unfolding byte_length
accepted = refl
