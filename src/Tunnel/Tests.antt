-- ===== src/Tunnel/Tests.antt =====
-- A request that a client answers.
mod Dialing
use Prim.Native.String.{String}
use wsp.Base.{refl, true, [], ◌∷◌, some, arith}
use wsp.Base.Int.{pos}
use wsp.Mulch.Request.{HttpRequest, Request, serialize_http_request}
use wsp.Mulch.Response.{Response, serialize_http_response}
use wsp.Runtime.{Returns}
use wsp.Server.Proxy.{new_writer}
use wsp.Client.Serve.{Reply, replied}
use wsp.Client.Serve.Replies.{head_of, body_of}
use wsp.Tunnel.{Codec, Requester, round_trip}
use wsp.Tunnel.RoundTrip.{Passed, round_trip-Passed}

abbrev request : Request String
request = record {
  method = "POST";
  url = some "/api/radarr/1/get";
  header = ("X-A", "1" ∷ []) ∷ [];
  content_length = pos 4;
  remote_addr = "10.0.0.1:80";
  host = "example.org";
  proto = "HTTP/1.1";
  request_uri = "/request/api/radarr/1/get";
}

abbrev sent_request : HttpRequest
sent_request = record {
  method = "POST";
  url = "/api/radarr/1/get";
  header = ("X-A", "1" ∷ []) ∷ [];
  content_length = pos 4;
  remote_addr = "10.0.0.1:80";
  host = "example.org";
  proto = "HTTP/1.1";
  request_uri = "/request/api/radarr/1/get";
}

abbrev response : Response
response = record {
  status = "201 Created";
  status_code = pos 201;
  header = ("X-B", "2" ∷ "3" ∷ []) ∷ [];
  content_length = pos 2;
}

-- Codecs that know one request and one response.
abbrev codec : Codec String
codec = record {
  marshal_request = λ r. "request";
  unmarshal_request = λ t. some sent_request;
  marshal_response = λ h. "response";
  unmarshal_response = λ t. some (serialize_http_response response);
  to_string = λ u. u;
  parse = some;
  describe = λ t. t;
}

abbrev client : Request String → String → Reply
client req payload = replied response payload true

abbrev requester : Requester
requester = record { canonical = λ k. k; is_code = λ n. true; copy = λ t. (t, true) }

round_trip-Passed_example :
    Returns (round_trip codec client 2 requester request "body" new_writer) (
      Passed requester new_writer
        (head_of (client request "body"))
        (body_of (client request "body")))
unfolding serialize_http_request
round_trip-Passed_example =
    round_trip-Passed codec client 2 requester request "body" new_writer "/api/radarr/1/get"
      sent_request refl refl refl refl refl (omega arith) refl refl refl refl
