-- ===== src/Server/Handlers/Requests.antt =====
-- How `HandleRequest` of server/handlers.go can end.
use Prim.Native.String.{String}
use wsp.Base.{ℕ, ◌≡◌, refl, ◌≢◌, ◌⊎◌, inl, inr, Bool, none, some, Option-cases, arith}
use wsp.Mulch.Response.{proxy_error_code}
use wsp.Runtime.{Result, ok, panics, blocks, invalid_code}
use wsp.Server.Session.{Phase}
use wsp.Server.Proxy.{channel_closed, Writer, Proxied}
use wsp.Server.Proxy.Outcome.{IsServed, served, failed_with, hangs, crashes, proxy_request-Outcome}
use wsp.Server.Handlers.{
  HandlerError, Try, good, bad, Get, HandlerConfig, Front, proxy_error, get_client_id, Disposal,
  unused, gave, closed_it, tunneling_failure, no_proxy_target, Handled, Surroundings, tunnel,
  refuse, target_of, handle_request,
}

-- What `HandleRequest` has done when it returns: it has refused the request with the proxy's error
-- code; or it has used the connection that a dispatcher has found for the client, and either the
-- whole response has been passed on and the connection given back, or the connection has been
-- closed and the requester has got a status.
abbrev pub IsHandled : HandlerConfig → Get → Surroundings → Front → Handled → Disposal → Type 0
IsHandled config get s f h unused = h.front.writer.status ≡ some proxy_error_code
IsHandled config get s f h (gave c) =
    (id : String) × (get_client_id config get ≡ good id)
    × (s.dispatch id ≡ some c)
    × (p : Proxied) × IsServed (s.exchange c) f.writer p
    × (h.front.writer ≡ p.writer)
IsHandled config get s f h (closed_it c) =
    (id : String) × (get_client_id config get ≡ good id)
    × (s.dispatch id ≡ some c)
    × (h.front.writer.status ≢ none)

-- The ways in which `HandleRequest` can end.
pub data Answer (config : HandlerConfig) (get : Get) (s : Surroundings) (f : Front)
    (r : Result Handled) : Type 0 where
  answered :
      (h : Handled) → IsHandled config get s f h h.disposal → r ≡ ok h → Answer config get s f r
  -- The connection is closed while the handler offers its channel to the reader.
  never_answered :
      (c : ℕ) (ph : Phase)
      → (s.exchange c).offer ph ≡ channel_closed
      → r ≡ blocks
      → Answer config get s f r
  -- The peer has answered with a code that is no status code.
  crashed : r ≡ panics invalid_code → Answer config get s f r

pub Try-cases :
    {A : Type 0} (t : Try A) → ((a : A) × (t ≡ good a)) ⊎ ((e : HandlerError) × (t ≡ bad e))
Try-cases (good a) = inl (a, refl)
Try-cases (bad e) = inr (e, refl)

-- A client is asked for only if the header names it.
pub target_of-known :
    (config : HandlerConfig) (get : Get) (parses : String → Bool) (pools : ℕ) (id : String)
    → target_of config get parses pools ≡ good id
    → get_client_id config get ≡ good id
unfolding target_of
target_of-known config get parses pools id e = ground (arith, e)

-- After an error has been reported the requester has a status.
pub has_status :
    (describe : HandlerError → String) (f : Front) (e : HandlerError) (w : Writer)
    → (proxy_error describe e "" (record f { writer = w })).writer.status ≢ none
unfolding proxy_error
has_status describe f e w = ground arith

module _ (describe : HandlerError → String) (config : HandlerConfig) (get : Get) (s : Surroundings)
    (f : Front) (unsent : f.writer.status ≡ none) where
  refuse-Answer : (e : HandlerError) → Answer config get s f (refuse describe e f)
  unfolding proxy_error
  refuse-Answer e =
      answered (record { front = proxy_error describe e "" f; disposal = unused }) (rw unsent refl)
        refl

  tunnel-Answer :
      (id : String) (c : ℕ)
      → get_client_id config get ≡ good id
      → s.dispatch id ≡ some c
      → Answer config get s f (tunnel describe s c f)
  unfolding tunnel
  tunnel-Answer id c known found = elim (proxy_request-Outcome (s.exchange c) f.writer unsent) [
    | served p v e ↦
        answered (record { front = record f { writer = p.writer }; disposal = gave c })
          (id, known, found, p, v, refl) (rw (e, v.no_error) refl)
    | failed_with p x h n e ↦
        answered
          (record {
            front = proxy_error describe (tunneling_failure x) "" (record f { writer = p.writer });
            disposal = closed_it c;
          })
          (id, known, found, has_status describe f (tunneling_failure x) p.writer) (rw (e, h) refl)
    | hangs ph o e ↦ never_answered c ph o (rw e refl)
    | crashes json h r d n e ↦ crashed (rw e refl)
  ]

  dispatch-Answer :
      (id : String)
      → get_client_id config get ≡ good id
      → Answer config get s f (elim (s.dispatch id) [
        | none ↦ refuse describe (no_proxy_target id) f
        | some c ↦ tunnel describe s c f
      ])
  dispatch-Answer id known = elim (Option-cases (s.dispatch id)) [
    | inl missing ↦ rw missing (refuse-Answer (no_proxy_target id))
    | inr (c, found) ↦ rw found (tunnel-Answer id c known found)
  ]

  -- Every way in which `HandleRequest` can end, for a requester to whom no status has been sent.
  -- Either it returns: it has refused the request with the proxy's error code, or it has passed the
  -- whole response of the client's connection on and given the connection back, or it has closed
  -- the connection and the requester has a status. Or it hangs, for which the connection must be
  -- closed while it waits; or it panics, for which the peer must answer with an invalid code.
  pub handle_request-Answer : Answer config get s f (handle_request describe config get s f)
  unfolding handle_request
  handle_request-Answer = elim (Try-cases (target_of config get s.parses s.pools)) [
    | inl (id, e) ↦
        rw (e, handle_request)
          (dispatch-Answer id (target_of-known config get s.parses s.pools id e))
    | inr (e, h) ↦ rw (h, handle_request) (refuse-Answer e)
  ]
