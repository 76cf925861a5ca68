-- ===== src/System.antt =====
-- The server as src/server.c starts it, and what happens to its shared state: new connections, jobs
-- and ticks, each run from its start to its end.
pub mod Safety
pub mod Race
pub mod House
pub mod Stranger
pub mod Shutdown
pub mod Serve
pub mod Threads
use zbid.Base.{ℕ, ◌≡◌, none, some, [], ℤ, pos, get_elem?}
use zbid.Server.{User, Server}
use zbid.Server.Protocol.{MsgType, code}
use zbid.Server.Monad.{M, done, pure, ◌>>=◌, ◌>>◌}
use zbid.Users.Find.{find_username}
use zbid.Jobs.Process.{Blocks, Job, process_job}
use zbid.Jobs.Accept.{Hello, accept_client}
use zbid.Ticker.{run_tick}
use zbid.Invariant.Processing.{IsReadable}
use zbid.Invariant.Accepting.{IsLogin}

-- The lists that `main` creates are empty, and `run_server` initialises the semaphores to 1.
unfoldable pub init : Server
init = record {
  users = [];
  auctions = [];
  heap = λ _. none;
  auction_id = pos 0;
  tick = pos 0;
  users_mutex = 1;
  auctions_mutex = 1;
  auction_id_mutex = 1;
  sent = [];
}

pub data Event : Type 0 where
  hello : ℤ → Hello → Event
  job : Blocks → Job → Event
  tick : Event

-- What the thread that meets the event runs.
unfoldable pub handle : Event → M (Unit {0})
unfolding accept_client process_job run_tick
handle (hello client_fd m) = do _ ← accept_client client_fd m; pure tt
handle (job b j) = process_job b j
handle tick = run_tick

-- A client is logged in, and its message has the fields that its type wants.
pub record IsRequest (s : Server) (b : Blocks) (j : Job) : Type 0 where
  pub index : ℕ
  pub user : User
  pub found : find_username j.clientfd s.users ≡ some index
  pub at : get_elem? s.users index ≡ some user
  pub room : ℕ
  pub given : b.usable j.job_msg_length ≡ some room
  pub readable : IsReadable b user s j.job_msg_type j.job_buffer

-- What the server relies on in its clients.
abbrev pub IsAdmissible : Server → Event → Type 0
IsAdmissible s (hello client_fd m) = m.msg_type ≡ code MsgType.login → IsLogin m
IsAdmissible s (job b j) = IsRequest s b j
IsAdmissible s tick = Unit

-- The states that the server comes to.
pub data Reach : Server → Type 0 where
  start : Reach init
  later : {s t : Server} (e : Event) → Reach s → IsAdmissible s e → handle e s ≡ done tt t → Reach t
