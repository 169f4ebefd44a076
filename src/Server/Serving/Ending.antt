-- ===== src/Server/Serving/Ending.antt =====
-- How a request can end, and what it leaves of the pools.
use mathlib.Core.Path.{subst}
use Prim.Native.String.{String}
use wsp.Base.{ℕ, ◌≡◌, refl, ◌≢◌, false, List, none, some, length}
use wsp.Base.Maps.{at}
use wsp.Mulch.Response.{HttpResponse, proxy_error_code}
use wsp.Runtime.{Result, ok, panics, blocks, ◌>>=◌, invalid_code}
use wsp.Server.Connection.{closed}
use wsp.Server.Pool.{Pool}
use wsp.Server.Pool.Lifecycle.Return.{IsLast}
use wsp.Server.Session.{Phase, head}
use wsp.Server.Proxy.{channel_closed, content, Proxied}
use wsp.Server.Proxy.Outcome
use wsp.Server.Proxy.Outcome.{IsServed, failed_with, hangs, crashes, proxy_request-Outcome}
use wsp.Server.Handlers.{
  HandlerError, Try, Front, proxy_error, http_error, unused, gave, closed_it, tunneling_failure,
  no_proxy_target, Handled, target_of, tunnel, refuse,
}
use wsp.Server.Handlers.Requests.{has_status}
use wsp.Server.Dispatch.{Server, served, waits, dispatch_request}
use wsp.Server.Dispatch.Register.{AllRunning}
use wsp.Server.Dispatch.Request.{outcome}
use wsp.Server.Dispatch.Taken.{HasRoom, dispatch_request-Kept}
use wsp.Server.Serving.Settled.{InPool, settle-gave, settle-closed_it}
use wsp.Server.Serving.Found.{
  Enough, nobody, nothing_idle, one, dispatch_request-Found, dispatch_missing-pools,
}
use wsp.Server.Serving.Asked.{Asks, Refusal, unknown, Verdict, asks, refuses, target_of-Verdict}
use wsp.Server.Serving.{Setting, go_on, serve_request}

-- What the requester is told of an error.
abbrev pub told_of : Setting → HandlerError → Front → Front
told_of w e f = record f { writer = http_error (w.describe e) proxy_error_code f.writer }

-- The client that the request is for has this pool, in whose channel that connection has been idle
-- for longest.
pub record Meets (w : Setting) (s : Server) (id : String) (p : Pool) (c : ℕ) : Type 0 where
  pub asked : Asks w s id
  pub pool : at s.pools id ≡ some p
  pub oldest : outcome p ≡ served c

-- How a request can end that meets the server `s`.
pub data Ending (w : Setting) (f : Front) (s : Server) (r : Result (Handled × Server))
    : Type 0 where
  -- It is refused, for a reason, and told so with the proxy's code; the pools stay as they are.
  turned_away :
      (e : HandlerError) (t : Server)
      → Refusal w s e
      → t.pools ≡ s.pools
      → r ≡ ok (record { front = told_of w e f; disposal = unused }, t)
      → Ending w f s r
  -- The connection of the client has answered, and stands at the channel's end.
  passed_on :
      (id : String) (p : Pool) (c : ℕ) (h : Handled) (x : Proxied) (t : Server)
      → Meets w s id p c
      → IsServed (w.exchange c) f.writer x
      → h.front.writer ≡ x.writer
      → AllRunning t
      → InPool id (λ q. (l : List ℕ) × IsLast c l q) t
      → r ≡ ok (h, t)
      → Ending w f s r
  -- That connection has failed, and is closed.
  failed :
      (id : String) (p : Pool) (c : ℕ) (h : Handled) (t : Server)
      → Meets w s id p c
      → h.front.writer.status ≢ none
      → AllRunning t
      → InPool id (λ q. (q.heap c).status ≡ closed) t
      → r ≡ ok (h, t)
      → Ending w f s r
  -- The client's pool has no idle connection.
  waiting :
      (id : String) (p : Pool)
      → Asks w s id
      → at s.pools id ≡ some p
      → outcome p ≡ waits
      → r ≡ blocks
      → Ending w f s r
  -- The connection is closed while the handler offers its channel to the reader.
  never_answered :
      (id : String) (p : Pool) (c : ℕ) (ph : Phase)
      → Meets w s id p c
      → (w.exchange c).offer ph ≡ channel_closed
      → r ≡ blocks
      → Ending w f s r
  -- The peer has answered with a code that is no status code.
  crashed :
      (id : String) (p : Pool) (c : ℕ) (json : String) (a : HttpResponse)
      → Meets w s id p c
      → (w.exchange c).received head ≡ content json
      → (w.exchange c).decode json ≡ some a
      → (w.exchange c).is_code a.status_code ≡ false
      → r ≡ panics invalid_code
      → Ending w f s r

module _ (w : Setting) (f : Front) (s : Server) (unsent : f.writer.status ≡ none) where
  refuse-Ending :
      (e : HandlerError) (t : Server)
      → Refusal w s e
      → t.pools ≡ s.pools
      → Ending w f s (do h ← refuse w.describe e f; ok (h, t))
  unfolding proxy_error
  refuse-Ending e t why same = turned_away e t why same refl

  served-Ending :
      (id : String) (p : Pool) (c : ℕ) (t : Server)
      → Meets w s id p c
      → AllRunning t
      → HasRoom id (served c) t
      → Ending w f s (go_on w id f (served c) t)
  unfolding go_on tunnel
  served-Ending id p c t meets all room =
      elim (proxy_request-Outcome (w.exchange c) f.writer unsent) [
        | Outcome.served x v e ↦
            let (u, s', kept, back) = settle-gave w.now id c t all room in
            passed_on id p c (record { front = record f { writer = x.writer }; disposal = gave c })
              x u meets v refl kept back (rw (e, v.no_error, s') refl)
        | failed_with x y h n e ↦
            let (u, s', kept, gone) = settle-closed_it w.now id c t all room in
            failed id p c
              (record {
                front =
                    proxy_error w.describe (tunneling_failure y) ""
                      (record f { writer = x.writer });
                disposal = closed_it c;
              })
              u meets (has_status w.describe f (tunneling_failure y) x.writer) kept gone
              (rw (e, h, s') refl)
        | hangs ph h e ↦ never_answered id p c ph meets h (rw e refl)
        | crashes json a r d n e ↦ crashed id p c json a meets r d n (rw e refl)
      ]

  dispatched-Ending :
      (id : String)
      → Asks w s id
      → AllRunning s
      → Enough w.fuel s
      → Ending w f s (
          go_on w id f
            (dispatch_request w.fuel w.thread id s).0
            (dispatch_request w.fuel w.thread id s).1)
  unfolding go_on
  dispatched-Ending id asked all enough =
      let (kept, room) = dispatch_request-Kept w.fuel w.thread id s all in
      let t = (dispatch_request w.fuel w.thread id s).1 in
      elim (dispatch_request-Found w.fuel w.thread id s all enough) [
        | nobody missing d ↦ rw d (
            refuse-Ending (no_proxy_target id) t (unknown id asked missing)
              (dispatch_missing-pools w.fuel w.thread id s missing))
        | nothing_idle p found o d ↦ rw d (waiting id p asked found o refl)
        | one p c found o d ↦ rw d (
            served-Ending id p c t (record { asked = asked; pool = found; oldest = o }) kept
              (subst (λ x. HasRoom id x t) d room))
      ]

  -- A verdict on the request that is right leads to one of the endings.
  verdict-Ending :
      (v : Try String)
      → Verdict w s v
      → AllRunning s
      → Enough w.fuel s
      → target_of w.config w.get w.parses (length s.pools) ≡ v
      → Ending w f s (serve_request w f s)
  unfolding serve_request
  verdict-Ending _ (asks id asked) all enough e =
      rw (e, serve_request) (dispatched-Ending id asked all enough)
  verdict-Ending _ (refuses x why) all enough e = rw (e, serve_request) (refuse-Ending x s why refl)

  -- Every way in which a request can end that meets running pools, with nobody else at work on
  -- them, and with enough rounds for the dispatcher. Either it is refused for its reason, which the
  -- requester is told with the proxy's code, while the pools stay as they are: its destination
  -- cannot be parsed, there are no pools, it does not name a client in the header in which it has
  -- to, or the client that it names has no pool. Or it is passed to the connection of the client
  -- that it names which has been idle for longest: when that answers, the requester gets its
  -- response and the connection stands idle at the end of the client's channel; when it fails, the
  -- requester has a status and the connection is closed; and every pool goes on running. Or the
  -- handler waits: the client's pool has no idle connection, or the connection is closed while the
  -- handler offers its channel. Or it panics, for the peer has answered with an invalid code.
  pub serve_request-Ending : AllRunning s → Enough w.fuel s → Ending w f s (serve_request w f s)
  serve_request-Ending all enough = verdict-Ending _ (target_of-Verdict w s) all enough refl
