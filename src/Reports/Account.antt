-- ===== src/Reports/Account.antt =====
-- `userBalance`, `usersWins` and `usersSales` of src/helpers.c.
use zbid.Base.{none, some, List, [], ◌∷◌, ℤ, Text}
use zbid.Server.{Address, Auction}
use zbid.Server.Protocol.{MsgType}
use zbid.Server.Print.{print_int, semicolon, newline}
use zbid.Server.Monad.{M, pure, ◌>>=◌, deref, load_auction, strcat, reply, reply_with}
use zbid.Users.Find.{client_user}

-- `userBalance`.
unfoldable pub user_balance : ℤ → M (Unit {0})
unfolding client_user strcat reply_with
user_balance client_fd = do
  u ← client_user client_fd
  buf ← strcat [] (print_int u.balance)
  reply_with client_fd MsgType.usrblnc buf

-- `usersWinsInfo`: "id;name;bid\n".
unfoldable pub users_wins_info : Auction → Text → M Text
unfolding strcat
users_wins_info a str = do
  str ← strcat str (print_int a.id)
  str ← strcat str semicolon
  name ← deref a.name
  str ← strcat str name.text
  str ← strcat str semicolon
  str ← strcat str (print_int a.bid)
  strcat str newline

abbrev pub none_text : Text
none_text = b'N' ∷ b'o' ∷ b'n' ∷ b'e' ∷ []

-- `usersSalesInfo`: "id;name;winner;bid\n", with "None" twice where nobody has bid.
unfoldable pub users_sales_info : Auction → Text → M Text
unfolding strcat
users_sales_info a str = do
  str ← strcat str (print_int a.id)
  str ← strcat str semicolon
  name ← deref a.name
  str ← strcat str name.text
  str ← strcat str semicolon
  elim a.current_winner [
    | some w ↦ (do
      str ← strcat str w.text
      str ← strcat str semicolon
      str ← strcat str (print_int a.bid)
      strcat str newline)
    | none ↦ (do
      str ← strcat str none_text
      str ← strcat str semicolon
      str ← strcat str none_text
      strcat str newline)
  ]

-- The loop of both handlers over the auctions of the user.
unfoldable pub info_loop : (Auction → Text → M Text) → List Address → Text → M Text
unfolding load_auction
info_loop info [] buf = pure buf
info_loop info (p ∷ ps) buf = do a ← load_auction p; buf ← info a buf; info_loop info ps buf

-- The answer, by whether the list is empty.
unfoldable pub info_reply : ℤ → MsgType → (Auction → Text → M Text) → List Address → M (Unit {0})
unfolding info_loop reply reply_with
info_reply client_fd type info [] = reply client_fd type
info_reply client_fd type info (p ∷ ps) = do
  buf ← info_loop info (p ∷ ps) []
  reply_with client_fd type buf

-- `usersWins`.
unfoldable pub users_wins : ℤ → M (Unit {0})
unfolding client_user info_reply users_wins_info
users_wins client_fd = do
  u ← client_user client_fd
  info_reply client_fd MsgType.usrwins users_wins_info u.auctions_won

-- `usersSales`: the auctions that the user has created, sold or not.
unfoldable pub users_sales : ℤ → M (Unit {0})
unfolding client_user info_reply users_sales_info
users_sales client_fd = do
  u ← client_user client_fd
  info_reply client_fd MsgType.usrsales users_sales_info u.auctions_owned
