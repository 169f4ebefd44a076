-- ===== src/Server/Proxy.antt =====
-- server/httpproxy.go: one request through the tunnel, as the handler sees it. What the socket, the
-- codec and the goroutine `read` do during the request is an argument; the interleaving of the two
-- goroutines is modelled in Server/Session.antt.
pub mod Outcome
use Prim.Native.String
use Prim.Native.String.{String}
use text.Mathlib.Text.{◌==◌}
use wsp.Base.{
  ℕ, Bool, true, false, not, ◌&&◌, ltb, leb, ◌==◌ as nat_eq, List, [], ◌∷◌, ◌++◌, Option, none,
  some, if◌then◌else◌,
}
use wsp.Base.Int.{ℤ, pos, negsuc}
use wsp.Mulch.Response.{Header, HttpResponse}
use wsp.Runtime.{Result, ok, panics, blocks, ◌>>=◌, invalid_code}
use wsp.Server.Session.{Phase, head, body}

-- The errors that the steps return.
pub data ProxyError : Type 0 where
  serializing writing body_writer copying_request closing_body : ProxyError
  gave_up no_reader reading_head unserializing no_body_reader copying_body : ProxyError

-- How the `select` of `getNextResponse` ends: the reader takes the channel, the requester gives up,
-- or the send panics because the connection has been closed.
pub data Offer : Type 0 where
  accepted cancelled channel_closed : Offer

-- What the handler receives from the reader: nil, a message that breaks off behind
-- a text, or a whole one.
pub data Received : Type 0 where
  nil_reader : Received
  broken content : String → Received

-- The rest of the world during one request. `marshals` to `closes_body` are the calls of step 1;
-- `decode`, `canonical` and `is_code` are the codec of the response, `http.CanonicalHeaderKey` and
-- the codes that `WriteHeader` takes; `copy` is what the copy of a text to the requester writes,
-- and whether it succeeds.
pub record Exchange : Type 0 where
  pub marshals : Bool
  pub writes_head : Bool
  pub opens_body : Bool
  pub copies_body : Bool
  pub closes_body : Bool
  pub offer : Phase → Offer
  pub received : Phase → Received
  pub decode : String → Option HttpResponse
  pub canonical : String → String
  pub is_code : ℤ → Bool
  pub copy : String → String × Bool

-- The `http.ResponseWriter` of the requester.
pub record Writer : Type 0 where
  pub header : Header
  pub status : Option ℤ
  pub written : String

abbrev pub new_writer : Writer
new_writer = record { header = []; status = none; written = "" }

-- `sendProxyRequestBody`, step 1; a panic of the socket is recovered into a success.
unfoldable pub send_proxy_request_body : Exchange → Option ProxyError
send_proxy_request_body x =
    if x.marshals
    then (if x.writes_head
        then (if x.opens_body
            then (if x.copies_body
                then (if x.closes_body then none else some closing_body)
                else some copying_request)
            else some body_writer)
        else some writing)
    else some serializing

-- The messages that step 1 has sent of a request with this JSON and this body. That of the body is
-- whole when its writer has been closed.
unfoldable pub request_messages : Exchange → String → String → List String
request_messages x json payload =
    if x.marshals
    then (if x.writes_head
        then json ∷ (if x.opens_body && (x.copies_body && x.closes_body) then payload ∷ [] else [])
        else [])
    else []

-- `getNextResponse`: the recovered panic is no error.
unfoldable pub get_next_response : Offer → Option ProxyError
get_next_response accepted = none
get_next_response cancelled = some gave_up
get_next_response channel_closed = none

-- The receive that follows it: a channel that the reader did not take is never written to.
abbrev pub receive_reader : Offer → Received → Result Received
receive_reader accepted r = ok r
receive_reader cancelled r = ok r
receive_reader channel_closed r = blocks

-- What a step returns: an error, or a value.
abbrev pub Step : Type 0 → Type 0
Step A = Result (Option A × Option ProxyError)

abbrev pub read_head : Received → Option String × Option ProxyError
read_head nil_reader = (none, some no_reader)
read_head (broken t) = (none, some reading_head)
read_head (content t) = (some t, none)

-- `getProxyResponse`, step 2: the JSON text of the head.
unfoldable pub get_proxy_response : Exchange → Step String
get_proxy_response x = elim (get_next_response (x.offer head)) [
  | some e ↦ ok (none, some e)
  | none ↦ do r ← receive_reader (x.offer head) (x.received head); ok (read_head r)
]

-- `Header.Add`
unfoldable pub add_value : Header → String → String → Header
add_value [] key value = (key, value ∷ []) ∷ []
add_value ((k, vs) ∷ h) key value =
    if k == key then (k, vs ++ value ∷ []) ∷ h else (k, vs) ∷ add_value h key value

unfoldable pub add_values : Header → String → List String → Header
add_values h key [] = h
add_values h key (v ∷ vs) = add_values (add_value h key v) key vs

unfoldable pub add_headers : (String → String) → Header → Header → Header
add_headers canonical h [] = h
add_headers canonical h ((key, values) ∷ rest) =
    add_headers canonical (add_values h (canonical key) values) rest

-- The codes 1xx but 101: `WriteHeader` sends them at once, and the response gets its status later.
abbrev pub is_informational : ℤ → Bool
is_informational (pos n) = leb 100 n && (ltb n 200 && not (nat_eq n 101))
is_informational (negsuc n) = false

abbrev pub sent_status : ℤ → Option ℤ
sent_status code = if is_informational code then none else some code

-- `WriteHeader`: the first call counts, and a code without three digits panics.
abbrev pub write_header : (ℤ → Bool) → ℤ → Writer → Result Writer
write_header is_code code w = elim w.status [
  | some _ ↦ ok w
  | none ↦ if is_code code then ok (record w { status = sent_status code }) else panics invalid_code
]

-- `sendResponseToClient`, step 3.
unfoldable pub send_response_to_client :
    Exchange → String → Writer → Result (Option ProxyError × Writer)
send_response_to_client x json w = elim (x.decode json) [
  | none ↦ ok (some unserializing, w)
  | some r ↦ do
    v ←
        write_header x.is_code r.status_code
          (record w { header = add_headers x.canonical w.header r.header })
    ok (none, v)
]

-- The status behind a write: a text without a status gets 200.
abbrev pub status_behind : String → Option ℤ → Option ℤ
status_behind t none = if t == "" then none else some (pos 200)
status_behind t (some code) = some code

abbrev pub write_text : String → Writer → Writer
write_text t w = record w { status = status_behind t w.status; written = String.◌++◌ w.written t }

abbrev pub copy_text : Exchange → Received → Writer → Option ProxyError × Writer
copy_text x nil_reader w = (some no_body_reader, w)
copy_text x (broken t) w = (some copying_body, write_text (x.copy t).0 w)
copy_text x (content t) w =
    (if (x.copy t).1 then none else some copying_body, write_text (x.copy t).0 w)

-- `copyProxyResponseBody`, step 4.
unfoldable pub copy_proxy_response_body : Exchange → Writer → Result (Option ProxyError × Writer)
copy_proxy_response_body x w = elim (get_next_response (x.offer body)) [
  | some e ↦ ok (some e, w)
  | none ↦ do r ← receive_reader (x.offer body) (x.received body); ok (copy_text x r w)
]

-- What `proxyRequest` has done: its error, the response so far, and whether it has given the
-- connection back.
pub record Proxied : Type 0 where
  pub error : Option ProxyError
  pub writer : Writer
  pub given : Bool

abbrev failed : ProxyError → Writer → Proxied
failed e w = record { error = some e; writer = w; given = false }

-- The end of `proxyRequest`, behind step 4.
abbrev conclude : Option ProxyError × Writer → Proxied
conclude (some e, w) = failed e w
conclude (none, w) = record { error = none; writer = w; given = true }

-- Steps 3 and 4.
unfoldable pub respond : Exchange → String → Writer → Result Proxied
respond x json w = do
  (e, v) ← send_response_to_client x json w
  elim e [ some e ↦ ok (failed e v) | none ↦ do r ← copy_proxy_response_body x v; ok (conclude r) ]

-- Step 2 and what follows.
unfoldable pub receive_response : Exchange → Writer → Result Proxied
receive_response x w = do
  (json, e) ← get_proxy_response x
  elim e [
    | some e ↦ ok (failed e w)
    | none ↦ elim json [ none ↦ ok (failed unserializing w) | some t ↦ respond x t w ]
  ]

-- `proxyRequest`
unfoldable pub proxy_request : Exchange → Writer → Result Proxied
proxy_request x w = elim (send_proxy_request_body x) [
  | some e ↦ ok (failed e w)
  | none ↦ receive_response x w
]
