-- ===== src/Examples/Starting.antt =====
-- The server from its start to the first login.

use zbid.Base.{◌≡◌, refl, true, none, some, [], ◌∷◌, pos, eq_ℤ}
use zbid.Server.{User, Server}
use zbid.Server.Protocol.{MsgType}
use zbid.Server.Monad.{done}
use zbid.Server.Monad.Ensures.{Ensures}
use zbid.Users.Session.{login}
use zbid.Jobs.Text.{strtok}
use zbid.Jobs.Block.{c_string}
use zbid.Jobs.Accept.{Hello, login_hello, login_locked}
use zbid.Invariant.Accepting.{IsLogin}
use zbid.System.{init, hello, tick, handle, Reach, start, later}
use zbid.System.Safety.{IsBalanced, Reach-IsBalanced, Reach-handle}
use zbid.Examples.Demo.{fresh_user}

-- Alice with the password x.
abbrev pub alice_hello : Hello
alice_hello = record {
  result = pos 0;
  msg_type = 0x10;
  msg_len = 5;
  received = b'a' ∷ 13 ∷ 10 ∷ b'x' ∷ 0 ∷ [];
  got_through = true;
  login_buffer = 500;
  slack = [];
  user_block = fresh_user;
}

alice-IsLogin : IsLogin alice_hello
unfolding c_string strtok
alice-IsLogin = (_, refl, ((_, refl), ((_, refl), tt)))

-- Her account.
abbrev pub newcomer : User
newcomer = record {
  username = some (record { address = 500; text = b'a' ∷ [] });
  password = some (record { address = 503; text = b'x' ∷ [] });
  login_flag = true;
  balance = pos 0;
  fd = pos 4;
  auctions_owned = [];
  auctions_won = [];
  auctions_sold = 8;
}

-- What the login leaves.
abbrev pub first : Server
first = record {
  users = newcomer ∷ [];
  auctions = [];
  heap = λ _. none;
  auction_id = pos 0;
  tick = pos 0;
  users_mutex = 1;
  auctions_mutex = 1;
  auction_id_mutex = 1;
  sent = (record { fd = pos 4; msg_type = MsgType.ok; msg_len = 0; msgbuf = [] }) ∷ [];
}

first_handled : handle (hello (pos 4) alice_hello) init ≡ done tt first
unfolding handle init login_hello login_locked login strtok c_string eq_ℤ
first_handled = refl

pub first-Reach : Reach first
first-Reach = later (hello (pos 4) alice_hello) start (λ _. alice-IsLogin) first_handled

Reach-IsBalanced_example : IsBalanced first
Reach-IsBalanced_example = Reach-IsBalanced first-Reach

Reach-handle_example : Ensures (λ _ t. IsBalanced t) (handle tick first)
Reach-handle_example = Reach-handle tick first-Reach tt
