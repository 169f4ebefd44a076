-- ===== src/Tunnel/RoundTrip.antt =====
-- What the requester gets of the response that a client has produced.
use Prim.Native.String
use Prim.Native.String.{String}
use wsp.Base.{ℕ, ◌≤◌, ◌≡◌, refl, sym, ap, ◌∙◌, true, [], ◌∷◌, ◌++◌, none, some}
use wsp.Mulch.Request.{
  HttpRequest, Request, serialize_http_request, unserialize_http_request, unserialize-serialize,
}
use wsp.Mulch.Response.{HttpResponse}
use wsp.Runtime.{ok, Returns}
use wsp.Server.Proxy.{
  Writer, Proxied, request_messages, send_proxy_request_body, get_next_response, get_proxy_response,
  send_response_to_client, copy_proxy_response_body, respond, receive_response, proxy_request,
}
use wsp.Server.Proxy.Outcome.{
  values_of, sent, final_status, status_behind-sent, values_of-add_headers,
}
use wsp.Client.Serve.{text, binary, Reply}
use wsp.Client.Serve.Replies.{head_of, body_of, copies, serve_handler-Answers}
use wsp.Tunnel.{Codec, Requester, exchange, answer, round_trip}

-- The requester has got this head and this body, and the connection has been given back.
abbrev pub Passed : Requester → Writer → HttpResponse → String → Proxied → Type 0
Passed q w h content p =
    (p.error ≡ none)
    × (p.given ≡ true)
    × (p.writer.status ≡ final_status h.status_code content)
    × ((key : String)
        → values_of p.writer.header key ≡ values_of w.header key ++ sent q.canonical h.header key)
    × (p.writer.written ≡ String.◌++◌ w.written content)

module _ {Url : Type 0} (c : Codec Url) (q : Requester) (w : Writer) where
  proxy_request-Passed :
      (h : HttpResponse) (content : String)
      → c.unmarshal_response (c.marshal_response h) ≡ some h
      → w.status ≡ none
      → q.is_code h.status_code ≡ true
      → q.copy content ≡ (content, true)
      → Returns
          (proxy_request (exchange c q (text (c.marshal_response h) ∷ binary content ∷ [])) w)
          (Passed q w h content)
  unfolding proxy_request receive_response get_proxy_response get_next_response respond
      send_proxy_request_body send_response_to_client copy_proxy_response_body
  proxy_request-Passed h content back unsent good copied =
      simp (back, unsent, good, copied)
        (
          refl,
          refl,
          status_behind-sent h.status_code content,
          λ key. values_of-add_headers q.canonical w.header h.header key,
          refl,
        )

  -- The messages that the client sends for a request that has come through.
  answer-sent :
      (client : Request Url → String → Reply) (writes : ℕ) (req : Request Url) (payload : String)
      (u : Url) (out : HttpRequest)
      → req.url ≡ some u
      → c.unmarshal_request (c.marshal_request out) ≡ some out
      → c.parse out.url ≡ some u
      → unserialize_http_request c.parse out ≡ req
      → 2 ≤ writes
      → copies (client req payload) ≡ true
      → (answer c q client writes out payload).sock.sent
        ≡ text (c.marshal_response (head_of (client req payload)))
          ∷ binary (body_of (client req payload))
          ∷ []
  unfolding answer request_messages
  answer-sent client writes req payload u out e read parsed back room copied =
      (serve_handler-Answers c.marshal_response c.unmarshal_request c.describe c.parse client
        (c.marshal_request out) payload [] out u _ refl read parsed room).1
      ∙ rw (back, copied) refl

-- A request whose URL can be printed and parsed again, and that JSON reads back, reaches the client
-- as it was, with its body; and when the client's socket takes two messages, the body of its
-- response can be copied at both ends and the status code is one that `WriteHeader` takes, then the
-- requester gets the status, the header values and the body of that response, or of the error that
-- the client reports, and the connection is given back. A code 1xx but 101 is not the status, which
-- is then 200 with a body, and left to the end of the handler without.
pub round_trip-Passed :
    {Url : Type 0} (c : Codec Url) (client : Request Url → String → Reply) (writes : ℕ)
    (q : Requester) (req : Request Url) (payload : String) (w : Writer) (u : Url)
    (out : HttpRequest)
    → req.url ≡ some u
    → c.parse (c.to_string u) ≡ some u
    → serialize_http_request c.to_string req ≡ ok out
    → c.unmarshal_request (c.marshal_request out) ≡ some out
    → c.unmarshal_response (c.marshal_response (head_of (client req payload)))
      ≡ some (head_of (client req payload))
    → 2 ≤ writes
    → copies (client req payload) ≡ true
    → q.is_code (head_of (client req payload)).status_code ≡ true
    → q.copy (body_of (client req payload)) ≡ (body_of (client req payload), true)
    → w.status ≡ none
    → Returns
        (round_trip c client writes q req payload w)
        (Passed q w (head_of (client req payload)) (body_of (client req payload)))
unfolding round_trip unserialize_http_request
round_trip-Passed c client writes q req payload w u out e back made read read' room copied good
      whole unsent =
    let (out', made', same') = unserialize-serialize c.to_string c.parse req u e back in
    let both : ok out' ≡ ok out = sym made' ∙ made in
    let eq : out' ≡ out = cc in
    let same : unserialize_http_request c.parse out ≡ req =
      sym (ap (unserialize_http_request c.parse) eq) ∙ same' in
    let parsed : c.parse out.url ≡ some u = ap (λ (r : Request _). r.url) same ∙ e in
    rw (made, answer-sent c q w client writes req payload u out e read parsed same room copied)
      (proxy_request-Passed c q w (head_of (client req payload)) (body_of (client req payload))
        read' unsent good whole)
