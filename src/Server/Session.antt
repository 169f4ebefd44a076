-- ===== src/Server/Session.antt =====
-- The two goroutines of a connection in use: `read` of server/connection.go, and the handler of an
-- HTTP request, which runs `proxyRequest` of server/httpproxy.go after `Take` and before `Give`.
-- They meet on the unbuffered channel `nextResponse` and on a channel that the handler makes for
-- each of the two messages that it wants. A step is what one of them does between two points at
-- which it can wait, or a meeting of both; the socket, the requester and the pool decide which step
-- comes next.
pub mod Exclusion
pub mod Hang
use wsp.Base.{ℕ, suc, ◌≡◌, ◌≢◌, Bool, true, false, if◌then◌else◌}
use wsp.Runtime.{Result, ok}
use wsp.Server.Connection.{
  ConnectionStatus, idle, busy, closed, Connection, close, take, mark_idle, fresh,
}

-- The message that the handler waits for: step 2 reads the head of the response, step 4 its body.
pub data Phase : Type 0 where
  head body : Phase

-- Where `read` stands. `handing k` is at `resp <- reader`, and `handed k` at `<-resp`, where `resp`
-- is the channel with the number `k`; `leaving` is before the deferred `Close`.
pub data Reader : Type 0 where
  at_loop reading delivering leaving ended : Reader
  handing handed : ℕ → Reader

-- Where the handler stands. `offering` is at the `select` of `getNextResponse`, `awaiting` at the
-- receive behind it, and `consuming` reads what it has received; each with the number of its
-- channel. `failing` has got an error from `proxyRequest`. `clash` are two handlers on one
-- connection.
pub data Handler : Type 0 where
  absent sending answering giving failing clash : Handler
  offering awaiting consuming : Phase → ℕ → Handler

-- `made` counts the channels that handlers have made.
pub record Session : Type 0 where
  pub conn : Connection
  pub reader : Reader
  pub handler : Handler
  pub made : ℕ

-- A new connection in its pool, with its goroutine started.
abbrev pub new_session : ℕ → Session
new_session now = record {
  conn = mark_idle now (fresh now);
  reader = at_loop;
  handler = absent;
  made = 0;
}

-- The channel `k` is open as long as the handler is in the call that has made it: the call closes
-- it when it returns.
abbrev pub Holds : ℕ → Handler → Type 0
Holds k (offering ph j) = k ≡ j
Holds k (awaiting ph j) = k ≡ j
Holds k (consuming ph j) = k ≡ j
Holds k _ = ⊥

-- Where the handler goes when it has read its message.
abbrev pub after : Phase → Handler
after head = answering
after body = giving

-- `Give`, where `room` says whether the channel of the pool has room.
unfoldable pub give_back : ℕ → Bool → Connection → Result Connection
give_back now room c = elim c.status [
  | closed ↦ ok c
  | _ ↦ if room then ok (mark_idle now c) else close (mark_idle now c)
]

-- Who takes a connection with success starts to send a request on it.
abbrev pub start : Handler → Handler
start absent = sending
start _ = clash

pub data Step : Session → Session → Type 0 where
  -- The loop of `read` begins.
  reads :
      {s : Session}
      → s.reader ≡ at_loop
      → s.conn.status ≢ closed
      → Step s (record s { reader = reading })
  stops :
      {s : Session}
      → s.reader ≡ at_loop
      → s.conn.status ≡ closed
      → Step s (record s { reader = leaving })
  -- `NextReader` returns an error, or a message, which nobody may have asked for.
  hangs_up : {s : Session} → s.reader ≡ reading → Step s (record s { reader = leaving })
  message :
      {s : Session}
      → s.reader ≡ reading
      → s.conn.status ≡ busy
      → Step s (record s { reader = delivering })
  wild_message :
      {s : Session}
      → s.reader ≡ reading
      → s.conn.status ≢ busy
      → Step s (record s { reader = leaving })
  -- The receive from `nextResponse`, when it is closed and when the handler sends on it.
  unlocked :
      {s : Session}
      → s.reader ≡ delivering
      → s.conn.next_response ≡ false
      → Step s (record s { reader = leaving })
  meets :
      {s : Session} {ph : Phase} {k : ℕ}
      → s.reader ≡ delivering
      → s.handler ≡ offering ph k
      → s.conn.next_response ≡ true
      → Step s (record s { reader = handing k; handler = awaiting ph k })
  -- The send of the reader, which panics on a closed channel.
  hands :
      {s : Session} {ph : Phase} {k : ℕ}
      → s.reader ≡ handing k
      → s.handler ≡ awaiting ph k
      → Step s (record s { reader = handed k; handler = consuming ph k })
  breaks :
      {s : Session} {k : ℕ}
      → s.reader ≡ handing k
      → ¬ Holds k s.handler
      → Step s (record s { reader = leaving })
  -- The receive from a closed channel.
  resumes :
      {s : Session} {k : ℕ}
      → s.reader ≡ handed k
      → ¬ Holds k s.handler
      → Step s (record s { reader = at_loop })
  ends :
      {s : Session} {c : Connection}
      → s.reader ≡ leaving
      → close s.conn ≡ ok c
      → Step s (record s { reader = ended; conn = c })
  -- A dispatcher takes the connection, or fails to.
  takes :
      {s : Session}
      → (take s.conn).1 ≡ true
      → Step s (record s { conn = (take s.conn).0; handler = start s.handler })
  misses : {s : Session} → (take s.conn).1 ≡ false → Step s (record s { conn = (take s.conn).0 })
  -- Step 1 and step 3 of `proxyRequest`, after which the next step makes a channel.
  sends :
      {s : Session}
      → s.handler ≡ sending
      → Step s (record s { handler = offering head s.made; made = suc s.made })
  answers :
      {s : Session}
      → s.handler ≡ answering
      → Step s (record s { handler = offering body s.made; made = suc s.made })
  fails_to_send : {s : Session} → s.handler ≡ sending → Step s (record s { handler = failing })
  fails_to_answer : {s : Session} → s.handler ≡ answering → Step s (record s { handler = failing })
  -- `getNextResponse`: the requester gives up; or the send panics on the closed channel, and
  -- `catchProxyPanic` lets the call return no error.
  gives_up :
      {s : Session} {ph : Phase} {k : ℕ}
      → s.handler ≡ offering ph k
      → Step s (record s { handler = failing })
  recovers :
      {s : Session} {ph : Phase} {k : ℕ}
      → s.handler ≡ offering ph k
      → s.conn.next_response ≡ false
      → Step s (record s { handler = awaiting ph k })
  -- The message has been read, or reading it fails.
  consumes :
      {s : Session} {ph : Phase} {k : ℕ}
      → s.handler ≡ consuming ph k
      → Step s (record s { handler = after ph })
  fails_to_read :
      {s : Session} {ph : Phase} {k : ℕ}
      → s.handler ≡ consuming ph k
      → Step s (record s { handler = failing })
  -- The end of `proxyRequest`, and `HandleRequest` after an error.
  gives :
      {s : Session} {c : Connection} (now : ℕ) (room : Bool)
      → s.handler ≡ giving
      → give_back now room s.conn ≡ ok c
      → Step s (record s { conn = c; handler = absent })
  drops :
      {s : Session} {c : Connection}
      → s.handler ≡ failing
      → close s.conn ≡ ok c
      → Step s (record s { conn = c; handler = absent })
  -- The pool closes the connection, when it cleans or shuts down.
  shuts : {s : Session} {c : Connection} → close s.conn ≡ ok c → Step s (record s { conn = c })

-- `t` can follow `s`.
pub data Reach (s : Session) : Session → Type 0 where
  here : Reach s s
  next : {t u : Session} → Reach s t → Step t u → Reach s u
