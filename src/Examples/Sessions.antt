-- ===== src/Examples/Sessions.antt =====
-- Logins, a client without an account and a loop over connections, at the demo.
use zbid.Base.{◌≡◌, refl, true, false, some, none, [], ◌∷◌, pos, negsuc, ℤ, str_eq, eq_ℤ, set}
use zbid.Server.{CString, Server}
use zbid.Server.Protocol.{MsgType, code}
use zbid.Server.Monad.{done, stop, null_deref, strcmp, ◌>>◌}
use zbid.Users.Find.{find_user_struct, find_username}
use zbid.Users.Session.{login, logout}
use zbid.Users.Session.Outcome.{answered, connected, LoggedIn, login-LoggedIn, logout-login}
use zbid.Auctions.Bid.Leading.{answer}
use zbid.Jobs.Text.{strtok}
use zbid.Jobs.Block.{c_string}
use zbid.Jobs.Accept.{Hello, started, accept_client}
use zbid.Jobs.Process.{process_job}
use zbid.Jobs.Requests.{job_of}
use zbid.System.Stranger.{Credentials, in_use, wins, stranger-crash}
use zbid.System.Serve.{Arrival, outcome, serve}
use zbid.System.Serve.Returns.{serve-returns}
use zbid.Invariant.{Keeps}
use zbid.Invariant.Accepting.{IsLogin}
use zbid.Examples.Demo.{bob, demo, demo-IsValid, fresh_user}
use zbid.Examples.Requests.{blocks}

abbrev bob_word : CString
bob_word = record { address = 600; text = b'y' ∷ [] }

abbrev bob_login : CString
bob_login = record { address = 604; text = b'b' ∷ [] }

login-LoggedIn_example :
    (r : ℤ) × (t : Server) × (login fresh_user (pos 7) (some bob_login) (some bob_word) demo
      ≡ done r t)
    × LoggedIn fresh_user (pos 7) bob_login bob_word demo r t
login-LoggedIn_example = login-LoggedIn fresh_user (pos 7) bob_login bob_word demo demo-IsValid

bob_at : find_username (pos 5) demo.users ≡ some 1
unfolding find_username eq_ℤ
bob_at = refl

bob_named : find_user_struct (some bob_login) demo.users ≡ some (some 1)
unfolding find_user_struct strcmp str_eq
bob_named = refl

same_word : str_eq bob_word.text (b'y' ∷ []) ≡ true
unfolding str_eq
same_word = refl

logout-login_example :
    (do logout (pos 5); login fresh_user (pos 7) (some bob_login) (some bob_word)) demo
    ≡ done (pos 0) (record demo {
      users = set demo.users 1 (connected bob (pos 7));
      sent = answer (pos 5) MsgType.ok ∷ answer (pos 7) MsgType.ok ∷ [];
    })
logout-login_example =
    logout-login fresh_user (pos 5) (pos 7) bob_login bob_word _ 1 bob demo bob_at bob_named refl
      refl same_word

-- A second login of bob, on the descriptor 7, and a request about the auctions won.
abbrev bob_again : Hello
bob_again = record {
  result = pos 0;
  msg_type = 0x10;
  msg_len = 5;
  received = b'b' ∷ 13 ∷ 10 ∷ b'y' ∷ 0 ∷ [];
  got_through = true;
  login_buffer = 600;
  slack = [];
  user_block = fresh_user;
}

abbrev again_name : CString
again_name = record { address = 600; text = b'b' ∷ [] }

again-Credentials : Credentials bob_again again_name (record { address = 603; text = b'y' ∷ [] })
unfolding c_string strtok
again-Credentials = record {
  text = b'b' ∷ 13 ∷ 10 ∷ b'y' ∷ [];
  through = refl;
  holds = refl;
  name = refl;
  password = refl;
}

again_named : find_user_struct (some again_name) demo.users ≡ some (some 1)
unfolding find_user_struct strcmp str_eq
again_named = refl

nobody_at : find_username (pos 7) demo.users ≡ none
unfolding find_username eq_ℤ
nobody_at = refl

stranger-crash_example :
    (accept_client (pos 7) bob_again demo ≡ done started (answered demo (pos 7) MsgType.eusrlgdin))
    × (process_job blocks
          (job_of (pos 7) (pos 1) MsgType.usrwins [])
          (answered demo (pos 7) MsgType.eusrlgdin)
        ≡ stop null_deref)
unfolding code
stranger-crash_example =
    stranger-crash (pos 7) bob_again demo _ blocks (pos 1) 24 MsgType.usrwins [] refl refl
      (in_use refl again-Credentials again_named refl refl) nobody_at refl refl wins

-- A connection that sends no header, and one whose client logs in.
abbrev mute : Arrival
mute = record {
  client_fd = pos 8;
  int_flag = false;
  hello = record bob_again { result = negsuc 0 };
}

abbrev talking : Arrival
talking = record { client_fd = pos 9; int_flag = false; hello = bob_again }

bob-IsLogin : bob_again.msg_type ≡ code MsgType.login → IsLogin bob_again
unfolding c_string strtok
bob-IsLogin _ = (_, refl, ((_, refl), ((_, refl), tt)))

serve-returns_example :
    (t : Server) × (serve (talking ∷ mute ∷ []) demo ≡ done (outcome (talking ∷ mute ∷ [])) t)
    × Keeps demo t
serve-returns_example =
    serve-returns (talking ∷ mute ∷ []) demo demo-IsValid (bob-IsLogin, (bob-IsLogin, tt))
