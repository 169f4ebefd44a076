-- ===== src/Client/Serve.antt =====
-- client/connection.go and client/middleware.go: one request that a client serves on a connection.
-- A message on the socket is written whole or not at all; the codecs, the HTTP client, the parser
-- of URLs and the handler of the application are parameters.
pub mod Answers
pub mod Replies
use Prim.Native.String
use Prim.Native.String.{String, len}
use wsp.Base.{
  ℕ, zero, suc, Bool, true, false, not, List, [], ◌∷◌, ◌++◌, Option, none, some, if◌then◌else◌,
}
use wsp.Base.Int.{ℤ, pos, ◌+ℤ◌}
use wsp.Mulch.Request.{HttpRequest, Request, unserialize_http_request}
use wsp.Mulch.Response.{
  HttpResponse, Response, serialize_http_response, client_error_code, new_http_response,
}
use wsp.Client.Pool.{Status, idle, running}

-- A message of the socket.
pub data Frame : Type 0 where
  text binary : String → Frame

-- The socket: the messages that will come, how many can still be written, and those written.
pub record Socket : Type 0 where
  pub inbox : List String
  pub writes : ℕ
  pub sent : List Frame

-- `WriteMessage`, and the closing of a writer; whether it succeeds.
abbrev pub write_message : Frame → Socket → Bool × Socket
write_message f s = elim s.writes [
  | zero ↦ (false, s)
  | suc n ↦ (true, record s { writes = n; sent = s.sent ++ f ∷ [] })
]

-- How the local request of `defaultHandler` ends: with an error, or with a response, its body, and
-- whether the copy of the body succeeds.
pub data Reply : Type 0 where
  failed : String → Reply
  replied : Response → String → Bool → Reply

-- What a handler of the application does with its `ResponseWriter`.
pub data Op : Type 0 where
  write_header : ℤ → Op
  write : String → Op

-- `req2Handler`; `body` is the open writer with what has been written to it.
pub record Adapter : Type 0 where
  pub resp : HttpResponse
  pub body : Option String
  pub err : Bool
  pub sock : Socket

-- The library closes the writer of a message when the next one begins.
abbrev pub flush : Option String → Socket → Socket
flush none s = s
flush (some content) s = (write_message (binary content) s).1

-- The rest of `Write`, for the writer that is open.
abbrev pub write_open : String → Option String → Adapter → Adapter
write_open content none a = a
write_open content (some b) a = record a {
  body = some (String.◌++◌ b content);
  resp = record a.resp { content_length = a.resp.content_length +ℤ pos (len content) };
}

-- The handler of a request and of its body: the default one, with the HTTP client, or the
-- application's.
pub data Handling (Url : Type 0) : Type 0 where
  default : (Request Url → String → Reply) → Handling Url
  custom : (Request Url → String → List Op) → Handling Url

-- What `serveHandler` leaves: whether the connection is kept, the socket, the statuses that it has
-- set, and whether it has asked the pool for another connection.
pub record Served : Type 0 where
  pub keeps : Bool
  pub sock : Socket
  pub statuses : List Status
  pub asks_more : Bool

abbrev pub take_message : List String → Socket → Option (String × Socket)
take_message [] s = none
take_message (m ∷ rest) s = some (m, record s { inbox = rest })

-- The next message, if one comes.
abbrev pub read_message : Socket → Option (String × Socket)
read_message s = take_message s.inbox s

abbrev pub busy_with : Bool × Socket → Served
busy_with (keeps, t) = record {
  keeps = keeps;
  sock = t;
  statuses = idle ∷ running ∷ [];
  asks_more = true;
}

module _ (marshal : HttpResponse → String) where
  -- `error`, which says whether the socket has failed.
  unfoldable pub report_error : String → Socket → Bool × Socket
  report_error msg s =
      let (ok_head, t) =
        write_message (text (marshal (new_http_response client_error_code (pos (len msg))))) s in
      if ok_head
      then (let (ok_body, u) = write_message (binary msg) t in (not ok_body, u))
      else (true, t)

  -- `writeResponseHeaders`: whether the head could be written.
  abbrev pub write_response_headers : Response → Socket → Bool × Socket
  write_response_headers resp s = write_message (text (marshal (serialize_http_response resp))) s

  -- `defaultHandler`, given what the HTTP client returns; the error of the last `Close` is dropped.
  unfoldable pub default_handler : Reply → Socket → Bool × Socket
  default_handler (failed msg) s = let (broken, t) = report_error msg s in (not broken, t)
  default_handler (replied resp content copied) s =
      let (ok_head, t) = write_response_headers resp s in
      if ok_head
      then (if copied then (true, (write_message (binary content) t).1) else (false, t))
      else (false, t)

  -- `WriteHeader`
  unfoldable pub do_write_header : ℤ → Adapter → Adapter
  do_write_header code a =
      let resp = record a.resp { status_code = code } in
      let (good, t) = write_message (text (marshal resp)) (flush a.body a.sock) in
      record { resp = resp; body = if good then some "" else none; err = not good; sock = t }

  -- `Write`
  unfoldable pub do_write : String → Adapter → Adapter
  do_write content a = elim a.body [
    | some b ↦ write_open content (some b) a
    | none ↦ let a' = do_write_header (pos 200) a in write_open content a'.body a'
  ]

  unfoldable pub run_ops : List Op → Adapter → Adapter
  run_ops [] a = a
  run_ops (write_header code ∷ ops) a = run_ops ops (do_write_header code a)
  run_ops (write content ∷ ops) a = run_ops ops (do_write content a)

  -- `customHandler`, given what the handler does.
  unfoldable pub custom_handler : List Op → Socket → Bool × Socket
  custom_handler ops s =
      let a =
        run_ops ops (record {
          resp = new_http_response (pos 0) (pos 0);
          body = none;
          err = false;
          sock = s;
        }) in
      (not a.err, flush a.body a.sock)

  -- The end of `serveHandler`, for the URL of the request and its body. The log line of the default
  -- handler prints the URL, and panics when it is nil; the recovered call returns false.
  unfoldable pub handle :
      {Url : Type 0}
      → Handling Url
      → Request Url
      → Option Url
      → Option (String × Socket)
      → Socket
      → Bool × Socket
  handle (custom f) req url none s = (false, s)
  handle (custom f) req url (some (content, t)) s = custom_handler (f req content) t
  handle (default f) req none next s = (false, s)
  handle (default f) req (some u) none s = (false, s)
  handle (default f) req (some u) (some (content, t)) s = default_handler (f req content) t

  -- The part of `serveHandler` behind the decoding of the request.
  unfoldable pub serve_decoded :
      {Url : Type 0}
      → (String → String)
      → (String → Option Url)
      → Handling Url
      → String
      → Option HttpRequest
      → Socket
      → Served
  serve_decoded describe parse h json none t = busy_with (false, (report_error (describe json) t).1)
  serve_decoded describe parse h json (some r) t =
      let req = unserialize_http_request parse r in
      busy_with (handle h req req.url (read_message t) t)

  -- `serveHandler`; `unmarshal` gives the request, or `describe` the text of the error.
  unfoldable pub serve_handler :
      {Url : Type 0}
      → (String → Option HttpRequest)
      → (String → String)
      → (String → Option Url)
      → Handling Url
      → Socket
      → Served
  serve_handler unmarshal describe parse h s = elim (read_message s) [
    | none ↦ record { keeps = false; sock = s; statuses = idle ∷ []; asks_more = false }
    | some (json, t) ↦ serve_decoded describe parse h json (unmarshal json) t
  ]
