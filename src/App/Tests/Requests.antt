-- ===== src/App/Tests/Requests.antt =====
-- Requests at the mux, and keys at the auth proxy.
use Prim.Native.String.{String}
use wsp.Base.{
  ℕ, ◌≡◌, refl, true, false, List, [], ◌∷◌, ◌++◌, Option, none, some, if◌then◌else◌, arith,
}
use wsp.Base.Int.{pos}
use wsp.Mulch.{Handshake}
use wsp.Runtime.{Returns}
use wsp.Server.Proxy.{new_writer}
use wsp.Server.Handlers.{Get, good, HandlerConfig, Front, has_socket, handle_register}
use wsp.Server.Handlers.Registrations.{queued}
use wsp.App.Paths.{codes}
use wsp.App.Upstreams.{Text, host_of}
use wsp.App.Routes.{Request, serve_http}
use wsp.App.Routes.Guard.{Behind, serve_http-Behind}
use wsp.App.Keys.{KeyError, Auth, key_validator}
use wsp.App.Keys.Admission.{is_authorized, key_of, handle_register-authorized}
use wsp.App.Tests.{is_host, parse_host}

abbrev request_of : Text → Request
request_of path = record {
  is_connect = false;
  path = path;
  raw_path = [];
  remote_addr = codes "10.0.0.1:4040";
}

abbrev table : List (Text × Option ℕ)
table = (codes "10.0.0.1", some 1) ∷ []

serve_http-Behind_example :
    Returns
      (serve_http ℕ parse_host is_host (λ p. p) table [] (request_of (codes "/request/api/ping")))
      (Behind ℕ parse_host is_host
        (λ p. p)
        table
        []
        (request_of (codes "/request/api/ping"))
        (codes "10.0.0.1"))
unfolding host_of
serve_http-Behind_example =
    serve_http-Behind ℕ parse_host is_host (λ p. p) table []
      (request_of (codes "/request/api/ping")) (codes "10.0.0.1") refl

abbrev auth : Auth
auth = record {
  auth_url = "http://localhost/auth";
  auth_header = "x-api-key";
  creates = λ url. true;
  ask = λ url header key. some (record { status_code = pos 200; status = "200 OK" });
}

abbrev get : Get
get name = "12345678-1234-1234-1234-123456789abc"

abbrev describe_key : KeyError → String
describe_key e = "refused"

abbrev config : HandlerConfig
config = record {
  secret_key = "";
  id_header = "";
  key_validator = some (key_validator describe_key auth);
}

abbrev greeting : Handshake
greeting = record {
  size = pos 1;
  max_size = pos 3;
  id = "one";
  name = "first";
  compress = "";
  client_ids = [];
}

abbrev front : Front
front = record {
  writer = new_writer;
  regs = none;
  new_pool = record { buffer = []; cap = 1; is_open = true };
}

handle_register-authorized_example :
    Returns (handle_register (λ e. "failed") config get has_socket (some greeting) front) (λ r.
      r.front.new_pool.buffer
      ≡ []
        ++ (if is_authorized auth (key_of get)
            then queued (good (key_of get)) has_socket (some greeting)
            else []))
handle_register-authorized_example =
    handle_register-authorized describe_key auth (λ e. "failed") config get has_socket
      (some greeting) front refl refl (omega arith)
