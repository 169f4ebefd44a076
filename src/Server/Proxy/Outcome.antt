-- ===== src/Server/Proxy/Outcome.antt =====
-- The ways in which `proxyRequest` of server/httpproxy.go can end.
use Prim.Native.String
use Prim.Native.String.{String}
use text.Mathlib.Text.{◌==◌}
use text.Mathlib.TextEquality.{eq_iff}
use mathlib.Core.List.{append-nil, append_assoc}
use wsp.Base.{
  ◌≡◌, refl, sym, ◌∙◌, inl, inr, true, false, List, [], ◌∷◌, ◌++◌, Option, none, some, Bool-cases,
  Option-cases, arith, if◌then◌else◌,
}
use wsp.Base.Int.{ℤ, pos}
use wsp.Mulch.Response.{Header, HttpResponse}
use wsp.Runtime.{Result, ok, panics, blocks, ◌>>=◌, invalid_code}
use wsp.Server.Session.{Phase, head, body}
use wsp.Server.Proxy.{
  ProxyError, gave_up, no_reader, reading_head, unserializing, no_body_reader, copying_body, Offer,
  accepted, cancelled, channel_closed, Received, nil_reader, broken, content, Exchange, Writer,
  Proxied, send_proxy_request_body, get_next_response, get_proxy_response, add_value, add_values,
  add_headers, send_response_to_client, copy_proxy_response_body, respond, failed, conclude,
  copy_text, write_text, status_behind, sent_status, is_informational, receive_response,
  proxy_request,
}

-- The values under a key of a header.
abbrev pub values_of : Header → String → List String
values_of [] key = []
values_of (entry ∷ h) key = if entry.0 == key then entry.1 else values_of h key

-- The values that a response sends under a key, once its keys are in canonical form.
abbrev pub sent : (String → String) → Header → String → List String
sent canonical [] key = []
sent canonical (entry ∷ h) key =
    (if canonical entry.0 == key then entry.1 else []) ++ sent canonical h key

values_of-add_value :
    (h : Header) (key other value : String)
    → values_of (add_value h key value) other
      ≡ values_of h other ++ (if key == other then value ∷ [] else [])
unfolding add_value
values_of-add_value [] key other value = refl
values_of-add_value ((k, vs) ∷ h) key other value = elim (Bool-cases (k == key)) [
  | inl hit ↦
      let same : k ≡ key = (eq_iff k key).0 hit in
      rw (hit, ← same)
        (elim (Bool-cases (k == other)) [
          | inl here ↦ rw here refl
          | inr else_where ↦ rw else_where (sym (append-nil (values_of h other)))
        ])
  | inr miss ↦ rw miss (elim (Bool-cases (k == other)) [
    | inl here ↦
        let away : (key == other) ≡ false =
          ground (arith, eq_iff k key, eq_iff k other, eq_iff key other) in
        rw (here, away) (sym (append-nil vs))
    | inr else_where ↦ rw else_where (values_of-add_value h key other value)
  ])
]

values_of-add_values :
    (h : Header) (key other : String) (values : List String)
    → values_of (add_values h key values) other
      ≡ values_of h other ++ (if key == other then values else [])
unfolding add_values
values_of-add_values h key other [] = ground (arith, append-nil (values_of h other))
values_of-add_values h key other (v ∷ vs) =
    values_of-add_values (add_value h key v) key other vs
    ∙ rw (values_of-add_value h key other v, append_assoc)
        (elim (Bool-cases (key == other)) [ inl e ↦ rw e refl | inr e ↦ rw e refl ])

pub values_of-add_headers :
    (canonical : String → String) (h l : Header) (key : String)
    → values_of (add_headers canonical h l) key ≡ values_of h key ++ sent canonical l key
unfolding add_headers
values_of-add_headers canonical h [] key = sym (append-nil (values_of h key))
values_of-add_headers canonical h ((k, vs) ∷ l) key =
    values_of-add_headers canonical (add_values h (canonical k) vs) l key
    ∙ rw (values_of-add_values h (canonical k) key vs, append_assoc) refl

-- The status for a response with this code and body: the code, but an informational one is not the
-- status, which is then 200 with a body, and is left to the end of the handler without.
abbrev pub final_status : ℤ → String → Option ℤ
final_status code t =
    if is_informational code then (if t == "" then none else some (pos 200)) else some code

pub status_behind-sent :
    (code : ℤ) (t : String) → status_behind t (sent_status code) ≡ final_status code t
status_behind-sent code t = elim (Bool-cases (is_informational code)) [
  | inl e ↦ rw e refl
  | inr e ↦ rw e refl
]

-- The requester has got the whole response, and the connection has been given back.
pub record IsServed (x : Exchange) (w : Writer) (p : Proxied) : Type 0 where
  pub json : String
  pub response : HttpResponse
  pub text_body : String
  pub head_offered : x.offer head ≡ accepted
  pub head_received : x.received head ≡ content json
  pub decoded : x.decode json ≡ some response
  pub body_offered : x.offer body ≡ accepted
  pub body_received : x.received body ≡ content text_body
  pub copied : (x.copy text_body).1 ≡ true
  pub status : p.writer.status ≡ final_status response.status_code (x.copy text_body).0
  pub values :
      (key : String)
      → values_of p.writer.header key
        ≡ values_of w.header key ++ sent x.canonical response.header key
  pub written : p.writer.written ≡ String.◌++◌ w.written (x.copy text_body).0
  pub no_error : p.error ≡ none
  pub given : p.given ≡ true

-- How `proxyRequest` can end, for a requester `w`.
pub data Outcome (x : Exchange) (w : Writer) (r : Result Proxied) : Type 0 where
  served : (p : Proxied) → IsServed x w p → r ≡ ok p → Outcome x w r
  -- An error is returned, and the connection is not given back.
  failed_with :
      (p : Proxied) (e : ProxyError) → p.error ≡ some e → p.given ≡ false → r ≡ ok p → Outcome x w r
  -- The connection is closed while the handler offers its channel, and the handler waits for ever.
  hangs : (ph : Phase) → x.offer ph ≡ channel_closed → r ≡ blocks → Outcome x w r
  -- The peer answers with a status code that is none.
  crashes :
      (json : String) (h : HttpResponse)
      → x.received head ≡ content json
      → x.decode json ≡ some h
      → x.is_code h.status_code ≡ false
      → r ≡ panics invalid_code
      → Outcome x w r

module _ (x : Exchange) (w : Writer) (unsent : w.status ≡ none) (json : String) (h : HttpResponse)
    (hd : x.offer head ≡ accepted) (rd : x.received head ≡ content json)
    (dec : x.decode json ≡ some h) where
  -- The writer behind step 3.
  abbrev answered : Writer
  answered = record w {
    header = add_headers x.canonical w.header h.header;
    status = sent_status h.status_code;
  }

  answers : x.is_code h.status_code ≡ true → send_response_to_client x json w ≡ ok (none, answered)
  unfolding send_response_to_client
  answers good = ground arith

  crashes_at :
      x.is_code h.status_code ≡ false → send_response_to_client x json w ≡ panics invalid_code
  unfolding send_response_to_client
  crashes_at bad = ground arith

  -- Step 4, when the reader has taken the channel.
  copies :
      (r : Received)
      → x.offer body ≡ accepted
      → x.received body ≡ r
      → copy_proxy_response_body x answered ≡ ok (copy_text x r answered)
  unfolding copy_proxy_response_body get_next_response
  copies r eo er = ground arith

  respond-bind :
      (b : Result (Option ProxyError × Writer))
      → x.is_code h.status_code ≡ true
      → copy_proxy_response_body x answered ≡ b
      → respond x json w ≡ (b >>= λ r. ok (conclude r))
  unfolding respond
  respond-bind b good e = rw (answers good, e) refl

  body-Outcome :
      (o : Offer) (r : Received)
      → x.offer body ≡ o
      → x.received body ≡ r
      → x.is_code h.status_code ≡ true
      → Outcome x w (respond x json w)
  unfolding copy_proxy_response_body get_next_response
  body-Outcome cancelled r eo er good =
      failed_with (failed gave_up answered) gave_up refl refl
        (respond-bind (ok (some gave_up, answered)) good (ground arith))
  body-Outcome channel_closed r eo er good = hangs body eo (respond-bind blocks good (ground arith))
  body-Outcome accepted nil_reader eo er good =
      failed_with (failed no_body_reader answered) no_body_reader refl refl
        (respond-bind _ good (copies nil_reader eo er))
  body-Outcome accepted (broken t) eo er good =
      failed_with _ copying_body refl refl (respond-bind _ good (copies (broken t) eo er))
  body-Outcome accepted (content t) eo er good = elim (Bool-cases (x.copy t).1) [
    | inl done ↦
        served (record { error = none; writer = copied; given = true })
          (record {
            json = json;
            response = h;
            text_body = t;
            head_offered = hd;
            head_received = rd;
            decoded = dec;
            body_offered = eo;
            body_received = er;
            copied = done;
            status = status_behind-sent h.status_code (x.copy t).0;
            values = values_of-add_headers x.canonical w.header h.header;
            written = refl;
            no_error = refl;
            given = refl;
          })
          (respond-bind _ good (copies (content t) eo er) ∙ rw done refl)
    | inr cut ↦
        failed_with (failed copying_body copied) copying_body refl refl
          (respond-bind _ good (copies (content t) eo er) ∙ rw cut refl)
  ]
    where
      copied : Writer
      copied = write_text (x.copy t).0 answered

  respond-Outcome : Outcome x w (respond x json w)
  unfolding respond
  respond-Outcome = elim (Bool-cases (x.is_code h.status_code)) [
    | inl good ↦ body-Outcome (x.offer body) (x.received body) refl refl good
    | inr bad ↦ crashes json h rd dec bad (rw (crashes_at bad) refl)
  ]

respond_undecoded :
    (x : Exchange) (json : String) (w : Writer)
    → x.decode json ≡ none
    → respond x json w ≡ ok (failed unserializing w)
unfolding respond send_response_to_client
respond_undecoded x json w bad = rw (bad, respond, send_response_to_client) refl

module _ (x : Exchange) (w : Writer) (unsent : w.status ≡ none) where
  received_text :
      (t : String)
      → x.offer head ≡ accepted
      → x.received head ≡ content t
      → receive_response x w ≡ respond x t w
  unfolding receive_response get_proxy_response get_next_response
  received_text t eo er = ground arith

  receive_response-Outcome :
      (o : Offer) (r : Received)
      → x.offer head ≡ o
      → x.received head ≡ r
      → Outcome x w (receive_response x w)
  unfolding receive_response get_proxy_response get_next_response
  receive_response-Outcome cancelled r eo er =
      failed_with (failed gave_up w) gave_up refl refl (ground arith)
  receive_response-Outcome channel_closed r eo er = hangs head eo (ground arith)
  receive_response-Outcome accepted nil_reader eo er =
      failed_with (failed no_reader w) no_reader refl refl (ground arith)
  receive_response-Outcome accepted (broken t) eo er =
      failed_with (failed reading_head w) reading_head refl refl (ground arith)
  receive_response-Outcome accepted (content t) eo er = elim (Option-cases (x.decode t)) [
    | inl bad ↦
        failed_with (failed unserializing w) unserializing refl refl
          (received_text t eo er ∙ respond_undecoded x t w bad)
    | inr (h, dec) ↦ rw (received_text t eo er) (respond-Outcome x w unsent t h eo er dec)
  ]

  -- Every way in which `proxyRequest` can end, for a requester to whom no status has been sent. It
  -- returns without an error only if it has passed on the status code (but for a code 1xx other than
  -- 101, which leaves 200 to a body, or no status), the values under each canonical key and the body
  -- that the peer sent, and then it has given the connection back; with an error it has not. Otherwise it hangs, which takes a connection that is closed while the
  -- handler offers its channel, or it panics, which takes a peer that answers with a code that is
  -- no status code.
  pub proxy_request-Outcome : Outcome x w (proxy_request x w)
  unfolding proxy_request
  proxy_request-Outcome = elim (Option-cases (send_proxy_request_body x)) [
    | inl sent_it ↦
        rw (sent_it, proxy_request)
          (receive_response-Outcome (x.offer head) (x.received head) refl refl)
    | inr (e, bad) ↦ failed_with (failed e w) e refl refl (rw (bad, proxy_request) refl)
  ]
