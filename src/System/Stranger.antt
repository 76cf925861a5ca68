-- ===== src/System/Stranger.antt =====
-- Clients that have a thread in src/finalsample.c and no account.
use zbid.Base.{
  ◌≡◌, refl, ◌∙◌, true, false, none, some, ◌==◌, ◌+◌, ℕ, ℤ, pos, eq_ℤ, Text, leb, length, get_elem?,
}
use zbid.Server.{CString, User, Server}
use zbid.Server.Protocol.{MsgType, code}
use zbid.Server.Monad.{done, stop, null_deref}
use zbid.Users.Find.{find_username, find_user_struct, client_user}
use zbid.Users.Session.{login, login_existing}
use zbid.Users.Session.Outcome.{answered}
use zbid.Reports.Account.{user_balance, users_wins, users_sales}
use zbid.Jobs.Text.{strtok}
use zbid.Jobs.Block.{c_string, filled}
use zbid.Jobs.Accept.{Hello, started, login_locked, login_hello, accept_client}
use zbid.Jobs.Process.{Blocks, locked, switch, process_job}
use zbid.Jobs.Requests.{job_of, process_job-copied}

-- The name and the password of a LOGIN that is read.
pub record Credentials (m : Hello) (n word : CString) : Type 0 where
  pub through : m.got_through ≡ true
  pub text : Text
  pub holds : c_string (filled m.msg_len m.received m.slack) ≡ some text
  pub name : (strtok m.login_buffer text).0 ≡ some n
  pub password :
      (strtok (strtok m.login_buffer text).1 (strtok m.login_buffer text).2).0 ≡ some word

-- A client comes in without an account of its own, and the state after it: its first message is no
-- LOGIN, or the LOGIN of a user who is logged in already.
pub data ComesIn (fd : ℤ) (m : Hello) (s : Server) : Server → Type 0 where
  without_login : (m.msg_type == code MsgType.login) ≡ false → ComesIn fd m s s
  in_use :
      {n word : CString} {i : ℕ} {u : User}
      → (m.msg_type == code MsgType.login) ≡ true
      → Credentials m n word
      → find_user_struct (some n) s.users ≡ some (some i)
      → get_elem? s.users i ≡ some u
      → u.login_flag ≡ true
      → ComesIn fd m s (answered s fd MsgType.eusrlgdin)

-- A request about the client's own account.
pub data IsPersonal : MsgType → Type 0 where
  balance : IsPersonal MsgType.usrblnc
  wins : IsPersonal MsgType.usrwins
  sales : IsPersonal MsgType.usrsales

login_hello-in_use :
    (fd : ℤ) (m : Hello) (n word : CString) (i : ℕ) (u : User) (s : Server)
    → s.users_mutex ≡ 1
    → Credentials m n word
    → find_user_struct (some n) s.users ≡ some (some i)
    → get_elem? s.users i ≡ some u
    → u.login_flag ≡ true
    → login_hello fd m s ≡ done started (answered s fd MsgType.eusrlgdin)
unfolding login_hello login_locked login login_existing eq_ℤ
login_hello-in_use fd m n word i u s free c found at on =
    rw (c.through, c.holds, free, c.name, found, at, on) refl

ComesIn-started :
    (fd : ℤ) (m : Hello) (s t : Server)
    → s.users_mutex ≡ 1
    → m.result ≡ pos 0
    → ComesIn fd m s t
    → accept_client fd m s ≡ done started t
unfolding accept_client eq_ℤ code login_hello
ComesIn-started fd m s t free read (without_login other) = rw (read, other) refl
ComesIn-started fd m s t free read (in_use {n} {word} {i} {u} log c found at on) =
    rw (read, log) (login_hello-in_use fd m n word i u s free c found at on)

ComesIn-mutex :
    (fd : ℤ) (m : Hello) (s t : Server) → ComesIn fd m s t → s.users_mutex ≡ 1 → t.users_mutex ≡ 1
ComesIn-mutex fd m s t (without_login other) free = free
ComesIn-mutex fd m s t (in_use log c found at on) free = free

ComesIn-users :
    (fd : ℤ) (m : Hello) (s t : Server)
    → ComesIn fd m s t
    → find_username fd s.users ≡ none
    → find_username fd t.users ≡ none
ComesIn-users fd m s t (without_login other) nobody = nobody
ComesIn-users fd m s t (in_use log c found at on) nobody = nobody

personal-crash :
    (b : Blocks) (fd len : ℤ) (room : ℕ) (type : MsgType) (text : Text) (s : Server)
    → s.users_mutex ≡ 1
    → find_username fd s.users ≡ none
    → b.usable len ≡ some room
    → leb (length text + 1) room ≡ true
    → IsPersonal type
    → process_job b (job_of fd len type text) s ≡ stop null_deref
unfolding switch locked user_balance users_wins users_sales client_user code
personal-crash b fd len room type text s free nobody given fits balance =
    process_job-copied b fd len room s given type text fits ∙ rw (free, nobody) refl
personal-crash b fd len room type text s free nobody given fits wins =
    process_job-copied b fd len room s given type text fits ∙ rw (free, nobody) refl
personal-crash b fd len room type text s free nobody given fits sales =
    process_job-copied b fd len room s given type text fits ∙ rw (free, nobody) refl

-- A client whose header was read and whose first message is no LOGIN, or whose LOGIN is answered
-- EUSRLGDIN, gets a thread all the same, in a state with the semaphore of the users free. Where no
-- user has its descriptor, its first request about the account, USRBLNC, USRWINS or USRSALES, in a
-- block that is long enough, reads through the NULL that `findUsername` returns.
pub stranger-crash :
    (fd : ℤ) (m : Hello) (s t : Server) (b : Blocks) (len : ℤ) (room : ℕ) (type : MsgType)
    (text : Text)
    → s.users_mutex ≡ 1
    → m.result ≡ pos 0
    → ComesIn fd m s t
    → find_username fd s.users ≡ none
    → b.usable len ≡ some room
    → leb (length text + 1) room ≡ true
    → IsPersonal type
    → (accept_client fd m s ≡ done started t)
      × (process_job b (job_of fd len type text) t ≡ stop null_deref)
stranger-crash fd m s t b len room type text free read comes nobody given fits personal = (
  ComesIn-started fd m s t free read comes,
  personal-crash b fd len room type text t (ComesIn-mutex fd m s t comes free)
      (ComesIn-users fd m s t comes nobody) given fits personal,
)
