-- ===== src/Server/Tests/Requests.antt =====
-- Runs of the HTTP handlers.
use Prim.Native.String.{String}
use wsp.Base.{refl, true, [], ◌∷◌, none, some, arith}
use wsp.Base.Int.{pos}
use wsp.Mulch.Response.{HttpResponse}
use wsp.Runtime.{Returns}
use wsp.Server.Session.{Phase, head, body}
use wsp.Server.Proxy.{accepted, Received, content, Exchange, new_writer, proxy_request}
use wsp.Server.Proxy.Outcome.{Outcome, proxy_request-Outcome}
use wsp.Server.Handlers.{
  HandlerError, Get, HandlerConfig, Front, Try, has_socket, handle_register, Surroundings,
  handle_request,
}
use wsp.Server.Handlers.Registrations.{Judged, IsRegistered, handle_register-IsRegistered}
use wsp.Server.Handlers.Requests.{Answer, handle_request-Answer}
use wsp.Server.Tests.{greeting}

abbrev reply : HttpResponse
reply = record {
  status_code = pos 200;
  header = ("x-a", "1" ∷ "2" ∷ []) ∷ [];
  content_length = pos 2;
}

abbrev received : Phase → Received
received head = content "{json}"
received body = content "hi"

-- An exchange in which nothing fails.
abbrev pub exchange : Exchange
exchange = record {
  marshals = true;
  writes_head = true;
  opens_body = true;
  copies_body = true;
  closes_body = true;
  offer = λ ph. accepted;
  received = received;
  decode = λ t. some reply;
  canonical = λ t. t;
  is_code = λ c. true;
  copy = λ t. (t, true);
}

proxy_request-Outcome_example : Outcome exchange new_writer (proxy_request exchange new_writer)
proxy_request-Outcome_example = proxy_request-Outcome exchange new_writer refl

abbrev pub config : HandlerConfig
config = record { secret_key = "s"; id_header = "x-id"; key_validator = none }

abbrev get : Get
get name = "s"

abbrev pub front : Front
front = record {
  writer = new_writer;
  regs = some (("success", 4) ∷ []);
  new_pool = record { buffer = []; cap = 100; is_open = true };
}

abbrev describe : HandlerError → String
describe e = "failed"

handle_register-IsRegistered_example :
    (key : Try String) × Judged config get key
    × Returns
        (handle_register describe config get has_socket (some greeting) front)
        (IsRegistered key has_socket (some greeting) front)
handle_register-IsRegistered_example =
    handle_register-IsRegistered describe config get has_socket (some greeting) front refl
      (omega arith)

abbrev surroundings : Surroundings
surroundings = record {
  parses = λ t. true;
  pools = 1;
  dispatch = λ id. some 0;
  exchange = λ c. exchange;
}

handle_request-Answer_example :
    Answer config get surroundings front (handle_request describe config get surroundings front)
handle_request-Answer_example = handle_request-Answer describe config get surroundings front refl
