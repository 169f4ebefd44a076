-- ===== src/Client/Serve/Replies.antt =====
-- How the default handler of client/connection.go answers for a request.
use Prim.Native.String.{String, len}
use mathlib.Core.Path.{subst}
use mathlib.Core.List.{append_assoc}
use wsp.Base.{
  ℕ, zero, suc, ◌≤◌, ◌≡◌, refl, sym, ap, ◌∙◌, Bool, true, false, List, [], ◌∷◌, ◌++◌, Option, some,
  arith, if◌then◌else◌,
}
use wsp.Base.Int.{pos}
use wsp.Mulch.Request.{HttpRequest, Request, unserialize_http_request}
use wsp.Mulch.Response.{HttpResponse, serialize_http_response, client_error_code, new_http_response}
use wsp.Client.Pool.{idle, running}
use wsp.Client.Serve.{
  text, binary, Socket, Reply, failed, replied, report_error, default_handler, default, Served,
  busy_with, handle, serve_decoded, serve_handler,
}

-- The head and the body that answer for a request, and whether the body can be copied.
abbrev pub head_of : Reply → HttpResponse
head_of (failed msg) = new_http_response client_error_code (pos (len msg))
head_of (replied resp content copied) = serialize_http_response resp

abbrev pub body_of : Reply → String
body_of (failed msg) = msg
body_of (replied resp content copied) = content

abbrev pub copies : Reply → Bool
copies (failed msg) = true
copies (replied resp content copied) = copied

module _ (marshal : HttpResponse → String) where
  -- Whenever the socket takes two messages, the default handler keeps the connection unless copying
  -- the body of the response fails. It has sent the head, and then the body if that could be
  -- copied, and nothing else: those of the response, or an error with the length of its text.
  default_handler-Answers :
      (reply : Reply) (s : Socket)
      → 2 ≤ s.writes
      → let r = default_handler marshal reply s in
        (r.0 ≡ copies reply)
        × (r.1.sent
            ≡ s.sent
              ++ text (marshal (head_of reply))
                ∷ (if copies reply then binary (body_of reply) ∷ [] else []))
        × (r.1.inbox ≡ s.inbox)
  unfolding default_handler report_error
  default_handler-Answers reply s room = go s.writes refl reply
    where
      go :
          (n : ℕ)
          → s.writes ≡ n
          → (reply : Reply)
          → let r = default_handler marshal reply s in
            (r.0 ≡ copies reply)
            × (r.1.sent
                ≡ s.sent
                  ++ text (marshal (head_of reply))
                    ∷ (if copies reply then binary (body_of reply) ∷ [] else []))
            × (r.1.inbox ≡ s.inbox)
      go zero e reply = absurd (omega (arith, e, room))
      go (suc zero) e reply = absurd (omega (arith, e, room))
      go (suc (suc n)) e (failed msg) = rw e (
        refl,
        append_assoc s.sent (text (marshal (head_of (failed msg))) ∷ []) (binary msg ∷ []),
        refl,
      )
      go (suc (suc n)) e (replied resp content true) = rw e (
        refl,
        append_assoc s.sent (text (marshal (serialize_http_response resp)) ∷ [])
            (binary content ∷ []),
        refl,
      )
      go (suc (suc n)) e (replied resp content false) = rw e (refl, refl, refl)

  -- Whenever a request and its body come on the socket, the request can be decoded and its URL
  -- parsed, and the socket takes two messages, `serveHandler` reads both with the default handler,
  -- sets the statuses of a connection in use and asks the pool for another one. It keeps the
  -- connection unless copying the body of the response fails, and sends the head, and then the body
  -- if that could be copied, and nothing else.
  pub serve_handler-Answers :
      {Url : Type 0} (unmarshal : String → Option HttpRequest) (describe : String → String)
      (parse : String → Option Url) (client : Request Url → String → Reply) (json content : String)
      (rest : List String) (r : HttpRequest) (u : Url) (s : Socket)
      → s.inbox ≡ json ∷ content ∷ rest
      → unmarshal json ≡ some r
      → parse r.url ≡ some u
      → 2 ≤ s.writes
      → let reply = client (unserialize_http_request parse r) content in
        let v = serve_handler marshal unmarshal describe parse (default client) s in
        (v.keeps ≡ copies reply)
        × (v.sock.sent
            ≡ s.sent
              ++ text (marshal (head_of reply))
                ∷ (if copies reply then binary (body_of reply) ∷ [] else []))
        × (v.sock.inbox ≡ rest)
        × (v.statuses ≡ idle ∷ running ∷ [])
        × (v.asks_more ≡ true)
  unfolding serve_handler serve_decoded handle unserialize_http_request
  serve_handler-Answers unmarshal describe parse client json content rest r u s come decoded parsed
        room =
      let req = unserialize_http_request parse r in
      let t : Socket = record s { inbox = content ∷ rest } in
      let h = default_handler-Answers (client req content) (record s { inbox = rest }) room in
      let here : serve_handler marshal unmarshal describe parse (default client) s
          ≡ serve_decoded marshal describe parse (default client) json (unmarshal json) t =
        rw come refl in
      let read : serve_decoded marshal describe parse (default client) json (unmarshal json) t
          ≡ busy_with (
              handle marshal (default client) req (parse r.url)
                (some (content, record s { inbox = rest })) t) =
        ap (λ o. serve_decoded marshal describe parse (default client) json o t) decoded in
      let handled =
        ap
          (λ o.
            busy_with
              (handle marshal (default client) req o (some (content, record s { inbox = rest })) t))
          parsed in
      subst (λ v. Served_is v) (sym (here ∙ read ∙ handled)) (h.0, h.1, h.2, refl, refl)
    where
      Served_is : Served → Type 0
      Served_is v =
          let reply = client (unserialize_http_request parse r) content in
          (v.keeps ≡ copies reply)
          × (v.sock.sent
              ≡ s.sent
                ++ text (marshal (head_of reply))
                  ∷ (if copies reply then binary (body_of reply) ∷ [] else []))
          × (v.sock.inbox ≡ rest)
          × (v.statuses ≡ idle ∷ running ∷ [])
          × (v.asks_more ≡ true)
