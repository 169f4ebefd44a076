-- ===== src/Tunnel.antt =====
-- One request through the tunnel, from server/httpproxy.go to client/connection.go and back: the
-- handler of the request at one end of a connection, and a round of `serveHandler` at the other.
pub mod Dialing
pub mod RoundTrip
mod Tests
use Prim.Native.String.{String}
use wsp.Base.{ℕ, ◌≡◌, Bool, true, List, [], ◌∷◌, Option, some}
use wsp.Base.Int.{ℤ}
use wsp.Mulch.Request.{HttpRequest, Request, serialize_http_request}
use wsp.Mulch.Response.{HttpResponse}
use wsp.Runtime.{Result, ◌>>=◌}
use wsp.Server.Session.{Phase, head, body}
use wsp.Server.Proxy.{
  accepted, Received, nil_reader, content, Exchange, Writer, Proxied, request_messages,
  proxy_request,
}
use wsp.Client.Serve.{Frame, text, binary, Reply, default, Socket, Served, serve_handler}

-- The codecs of both ends: JSON, and the printer and the parser of URLs.
pub record Codec (Url : Type 0) : Type 0 where
  pub marshal_request : HttpRequest → String
  pub unmarshal_request : String → Option HttpRequest
  pub marshal_response : HttpResponse → String
  pub unmarshal_response : String → Option HttpResponse
  pub to_string : Url → String
  pub parse : String → Option Url
  pub describe : String → String

-- What the requester's end of the server does: the canonical form of keys, the codes that
-- `WriteHeader` takes, and the copy of a text.
pub record Requester : Type 0 where
  pub canonical : String → String
  pub is_code : ℤ → Bool
  pub copy : String → String × Bool

abbrev pub frame_text : Frame → String
frame_text (text t) = t
frame_text (binary t) = t

-- The reader hands the messages of the client out in order.
abbrev pub handed_out : List Frame → Phase → Received
handed_out (f ∷ fs) head = content (frame_text f)
handed_out (f ∷ g ∷ fs) body = content (frame_text g)
handed_out _ ph = nil_reader

module _ {Url : Type 0} (c : Codec Url) where
  -- The exchange in which the request is written, and the client has answered with these messages.
  abbrev pub exchange : Requester → List Frame → Exchange
  exchange q frames = record {
    marshals = true;
    writes_head = true;
    opens_body = true;
    copies_body = true;
    closes_body = true;
    offer = λ ph. accepted;
    received = handed_out frames;
    decode = c.unmarshal_response;
    canonical = q.canonical;
    is_code = q.is_code;
    copy = q.copy;
  }

  -- The round of the client, whose socket takes so many messages, on what the server has sent.
  unfoldable pub answer :
      Requester → (Request Url → String → Reply) → ℕ → HttpRequest → String → Served
  answer q client writes out payload =
      serve_handler c.marshal_response c.unmarshal_request c.describe c.parse (default client)
        (record {
          inbox = request_messages (exchange q []) (c.marshal_request out) payload;
          writes = writes;
          sent = [];
        })

  -- The request and its body go out, the client answers, and the response comes back.
  unfoldable pub round_trip :
      (Request Url → String → Reply)
      → ℕ
      → Requester
      → Request Url
      → String
      → Writer
      → Result Proxied
  round_trip client writes q req payload w = do
    out ← serialize_http_request c.to_string req
    proxy_request (exchange q (answer q client writes out payload).sock.sent) w
