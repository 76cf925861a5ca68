-- ===== src/Users/Session.antt =====
-- `login` and `logout` of src/helpers.c.
pub mod Outcome
use zbid.Base.{Option, ℕ, true, false, none, some, [], ℤ, pos, negsuc, if◌then◌else◌}
use zbid.LinkedList.Contents.{insert_at_tail}
use zbid.Server.{CharPtr, User}
use zbid.Server.Protocol.{MsgType}
use zbid.Server.Monad.{
  strcmp, M, pure, ◌>>=◌, ◌>>◌, deref, gets, modify, load_user, store_user, reply,
}
use zbid.Users.Find.{find_username, find_user_struct}

-- A new account in the block that `malloc` returned. `auctionsSold` keeps what the block held.
unfoldable pub new_user : User → ℤ → CharPtr → CharPtr → User
new_user block client_fd username password = record block {
  username = username;
  password = password;
  fd = client_fd;
  login_flag = true;
  balance = pos 0;
  auctions_owned = [];
  auctions_won = [];
}

-- The body of the loop for the user whose name is the one given.
unfoldable pub login_existing : ℤ → ℕ → CharPtr → M ℤ
unfolding load_user store_user reply
login_existing client_fd i password = do
  u ← load_user i
  if u.login_flag then (do reply client_fd MsgType.eusrlgdin; pure (pos 0)) else do
    same ← deref (strcmp password u.password)
    if same
        then (do
          store_user i (record u { login_flag = true; fd = client_fd })
          reply client_fd MsgType.ok
          pure (pos 0))
        else do reply client_fd MsgType.ewrngpwd; pure (negsuc 0)

-- `login`: 0, or -1 after a wrong password. `block` is what `malloc` returned.
unfoldable pub login : User → ℤ → CharPtr → CharPtr → M ℤ
unfolding login_existing find_user_struct new_user reply
login block client_fd username password = do
  users ← gets (λ s. s.users)
  found ← deref (find_user_struct username users)
  elim found [
    | some i ↦ login_existing client_fd i password
    | none ↦ (do
      modify (λ s. record s {
        users = insert_at_tail s.users (new_user block client_fd username password);
      })
      reply client_fd MsgType.ok
      pure (pos 0))
  ]

-- What follows the search by descriptor: no answer where no user has it.
unfoldable pub logout_found : ℤ → Option ℕ → M (Unit {0})
unfolding load_user store_user reply
logout_found client_fd none = pure tt
logout_found client_fd (some i) = do
  u ← load_user i
  store_user i (record u { login_flag = false })
  reply client_fd MsgType.ok

-- `logout`.
unfoldable pub logout : ℤ → M (Unit {0})
unfolding find_username logout_found
logout client_fd = do
  users ← gets (λ s. s.users)
  logout_found client_fd (find_username client_fd users)
