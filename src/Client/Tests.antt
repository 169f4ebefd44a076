-- ===== src/Client/Tests.antt =====
-- Runs of the client's pools.
mod Removals
mod Sessions
use wsp.Base.{
  false, ◌*◌, ◌+◌, length, ◌==◌, ◌*◌, if◌then◌else◌, ℕ, ◌≡◌, refl, ◌≢◌, inl, inr, true, List, [],
  ◌∷◌, none, some, arith,
}
use Prim.Native.String.{String}
use wsp.Base.Int.{pos, ltb_ℤ}
use wsp.Runtime.{blocks, ◌>>=◌, Returns}
use wsp.Client.Config.{Config, check_config, second}
use wsp.Client.Pool.{
  idle, running, Pool, Attempt, succeeds, dial_fails, greeting_fails, connected, new_pool, remove,
}
use wsp.Client.Pool.Remove.{Removed, remove-Removed}
use wsp.Client.Pool.Keeper.{
  Keeper, Event, done, shuts_down, get_size, ticks, con_chan, set_status, ping_fails,
}
use wsp.Client.Pool.Keeper.{start as start_pool}
use wsp.Client.Pool.Keeper.Hang.{ping_fails_blocks}
use wsp.Client.Serve.{
  text, binary, Socket, Op, write, write_header, Reply, replied, default, do_write, do_write_header,
  run_ops, custom_handler, serve_handler,
}
use wsp.Client.Serve.Answers.{heads, custom_handler-heads}
use wsp.Client.Serve.Replies.{serve_handler-Answers}
use wsp.Mulch.Request.{HttpRequest, Request}
use wsp.Mulch.Response.{HttpResponse, new_http_response}
use wsp.Client.Targets.{new_client, start}
use wsp.Client.Targets.Rotation.{Turned, restarts, round_robin-Turned}

abbrev two_idle : Config
two_idle = record {
  name = "client";
  id = "one";
  client_ids = [];
  targets = "wss://a/register" ∷ "wss://b/register" ∷ [];
  pool_idle_size = pos 2;
  pool_max_size = pos 3;
  secret_key = "key";
  clean_interval = second;
  backoff = second;
  max_backoff = 30 * second;
  backoff_reset = 10 * second;
  round_robin = some (record { retry_interval = 60 * second });
}

-- The third attempt fails, the others succeed.
abbrev third_fails : ℕ → Attempt
third_fails n = if n == 2 then dial_fails else succeeds

third_fails-greets : (n : ℕ) → third_fails n ≢ greeting_fails
third_fails-greets n e = ground (arith, e)

abbrev busy_pool : Pool
busy_pool = record new_pool {
  connections = record (connected 7) { status = running } ∷ connected 8 ∷ [];
}

-- A request comes, a connection ends, and the pool is shut down.
abbrev events : List Event
events =
    set_status 0 idle
    ∷ set_status 1 running
    ∷ con_chan (6 * second) none
    ∷ get_size
    ∷ con_chan (7 * second) (some 0)
    ∷ ticks (9 * second)
    ∷ shuts_down
    ∷ done
    ∷ []

abbrev busy_keeper : Keeper
busy_keeper = record {
  pool = busy_pool;
  last_conn = 0;
  next = 9;
  is_running = true;
  sizes = [];
  restarts = 0;
}

round_robin-Turned_example :
    Returns
      (start (λ t. third_fails) (5 * second) (new_client two_idle)
        >>= restarts (λ t. third_fails) (70 * second ∷ 140 * second ∷ 210 * second ∷ []))
      (Turned (check_config two_idle) 1)
round_robin-Turned_example =
    round_robin-Turned (λ t. third_fails) two_idle (record { retry_interval = 60 * second })
      (5 * second) (70 * second ∷ 140 * second ∷ 210 * second ∷ []) (λ t. third_fails-greets) refl
      (omega arith)

-- The code of a response stands for its text on the socket.
abbrev code_text : HttpResponse → String
code_text r = if ltb_ℤ r.status_code (pos 400) then "fine" else "bad"

abbrev open_socket : Socket
open_socket = record { inbox = "GET /path" ∷ "body" ∷ []; writes = 9; sent = [] }

-- A handler that sends an error after it has begun to answer.
abbrev two_heads : List Op
two_heads = write "part" ∷ write_header (pos 500) ∷ write "failed" ∷ []

custom_handler-heads_example :
    let r = custom_handler code_text two_heads open_socket in
    (r.0 ≡ true) × (length r.1.sent ≡ 0 + 2 * heads false two_heads)
custom_handler-heads_example = custom_handler-heads code_text two_heads open_socket (omega arith)

two_answers :
    (custom_handler code_text two_heads open_socket).1.sent
    ≡ text "fine" ∷ binary "part" ∷ text "bad" ∷ binary "failed" ∷ []
unfolding custom_handler run_ops do_write do_write_header
two_answers = refl

abbrev get_request : HttpRequest
get_request = record {
  method = "GET";
  url = "/path";
  header = [];
  content_length = pos 4;
  remote_addr = "10.0.0.1:80";
  host = "example.org";
  proto = "HTTP/1.1";
  request_uri = "/path";
}

abbrev echo : Request String → String → Reply
echo req content =
    replied
      (record { status = "200 OK"; status_code = pos 200; header = []; content_length = pos 4 })
      content true

served_get :
    let v =
      serve_handler code_text (λ _. some get_request) (λ e. e) some (default echo) open_socket in
    (v.keeps ≡ true)
    × (v.sock.sent ≡ text "fine" ∷ binary "body" ∷ [])
    × (v.sock.inbox ≡ [])
    × (v.statuses ≡ idle ∷ running ∷ [])
    × (v.asks_more ≡ true)
served_get =
    serve_handler-Answers code_text (λ _. some get_request) (λ e. e) some echo "GET /path" "body" []
      get_request "/path" open_socket refl refl refl (omega arith)
