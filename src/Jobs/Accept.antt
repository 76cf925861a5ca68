-- ===== src/Jobs/Accept.antt =====
-- The body of the loop of `run_server` in src/finalsample.c, for a connection that was accepted.
use zbid.Base.{ℕ, Bool, ◌==◌, List, ℤ, pos, negsuc, eq_ℤ, ltb_ℤ, if◌then◌else◌}
use zbid.Server.{Address, CharPtr, User}
use zbid.Server.Protocol.{MsgType, code}
use zbid.Server.Monad.{M, pure, ◌>>=◌, ◌>>◌, users_mutex, sem_wait, sem_post}
use zbid.Users.Session.{login}
use zbid.Jobs.Text.{strtok}
use zbid.Jobs.Block.{c_string, filled, string_or_stop}

-- What a new connection brings: the result of `rd_msgheader`, the header, the bytes that `read` got;
-- whether `buffer_lock` came free and that `read`, which is made under it, returned; and of the
-- allocator: where `login_buffer` lies, what its block has behind `msg_len` bytes, and
-- the block for a new user.
pub record Hello : Type 0 where
  pub result : ℤ
  pub msg_type : ℕ
  pub msg_len : ℕ
  pub received : List ℕ
  pub got_through : Bool
  pub login_buffer : Address
  pub slack : List ℕ
  pub user_block : User

-- The loop ends; the connection is closed; a thread runs `process_client`; nothing happens; the loop
-- waits for `buffer_lock`, or in `read` with it.
pub data Accepted : Type 0 where
  loop_ended closed started ignored held_up : Accepted

-- `login` under the semaphore of the users, and what follows it.
unfoldable pub login_locked : User → ℤ → CharPtr → CharPtr → M Accepted
unfolding sem_wait sem_post
login_locked block client_fd username password = do
  sem_wait users_mutex
  result ← login block client_fd username password
  sem_post users_mutex
  if eq_ℤ result (negsuc 0) then pure closed else pure started

-- The first message is LOGIN: it is read under `buffer_lock`.
unfoldable pub login_hello : ℤ → Hello → M Accepted
login_hello client_fd m =
    if m.got_through
    then (do
      text ← string_or_stop (c_string (filled m.msg_len m.received m.slack))
      let (username, p, rest) = strtok m.login_buffer text
      let (password, _, _) = strtok p rest
      login_locked m.user_block client_fd username password)
    else pure held_up

-- A client whose first message has another type gets its thread at once.
unfoldable pub accept_client : ℤ → Hello → M Accepted
unfolding code
accept_client client_fd m =
    if ltb_ℤ m.result (pos 0)
    then pure loop_ended
    else if eq_ℤ m.result (pos 0)
    then (if m.msg_type == code MsgType.login then login_hello client_fd m else pure started)
    else pure ignored
