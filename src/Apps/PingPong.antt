-- ===== src/Apps/PingPong.antt =====
-- app/src/perf_latency_client.cc and app/src/perf_latency_server.cc, run against each other. Each
-- program polls the first byte of its receive buffer, which a delivered message makes nonzero. The
-- card and the network are outside: a message that was sent is delivered at some later time, once.
pub mod Laws
use homa_nic.Prelude.{ℕ, suc, ◌+◌, ◌-◌, ◌≤◌, ◌<◌, ◌≡◌, Bool, true, false}

-- Where the client is in its loop: about to store a ping, polling, or about to set `*poll` to 0.
pub data Client : Type 0 where
  ready waiting answered : Client

-- Where the server is: polling, about to store a pong, or about to set `*poll` to 0.
pub data Server : Type 0 where
  polling sending clearing : Server

-- The two programs, their poll bytes, the messages under way, and the numbers of messages sent.
pub record State : Type 0 where
  pub client : Client
  pub server : Server
  pub client_poll : Bool
  pub server_poll : Bool
  pub pings : ℕ
  pub pongs : ℕ
  pub pings_sent : ℕ
  pub pongs_sent : ℕ

-- Both programs have set `*poll` to 0 and enter their loops.
abbrev pub start : State
start = record {
  client = ready;
  server = polling;
  client_poll = false;
  server_poll = false;
  pings = 0;
  pongs = 0;
  pings_sent = 0;
  pongs_sent = 0;
}

-- The client's loop makes this many rounds.
abbrev pub rounds : ℕ
rounds = 1000

-- One statement of a program, or one delivery.
pub data Step (s : State) (t : State) : Type 0 where
  store_ping :
      s.client ≡ ready
      → s.pings_sent < rounds
      → t ≡ record s { client = waiting; pings = suc s.pings; pings_sent = suc s.pings_sent }
      → Step s t
  deliver_ping : 0 < s.pings → t ≡ record s { pings = s.pings - 1; server_poll = true } → Step s t
  see_ping :
      s.server ≡ polling → s.server_poll ≡ true → t ≡ record s { server = sending } → Step s t
  store_pong :
      s.server ≡ sending
      → t ≡ record s { server = clearing; pongs = suc s.pongs; pongs_sent = suc s.pongs_sent }
      → Step s t
  clear_ping :
      s.server ≡ clearing → t ≡ record s { server = polling; server_poll = false } → Step s t
  deliver_pong : 0 < s.pongs → t ≡ record s { pongs = s.pongs - 1; client_poll = true } → Step s t
  see_pong :
      s.client ≡ waiting → s.client_poll ≡ true → t ≡ record s { client = answered } → Step s t
  clear_pong : s.client ≡ answered → t ≡ record s { client = ready; client_poll = false } → Step s t

pub data Reach (s : State) : State → Type 0 where
  nothing : Reach s s
  step : {t u : State} (before : Reach s t) (now : Step t u) → Reach s u
