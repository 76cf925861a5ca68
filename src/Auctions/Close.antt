-- ===== src/Auctions/Close.antt =====
-- `closeAuction` of src/helpers.c.
pub mod Paid
pub mod Settle
pub mod Sold
use zbid.Base.{ℕ, none, some, List, [], ◌∷◌, ◌+◌, length, ℤ, Text}
use zbid.LinkedList.Contents.{insert_at_tail}
use zbid.Server.{CharPtr, Address, Auction}
use zbid.Server.Protocol.{MsgType}
use zbid.Server.Print.{print_int, crlf}
use zbid.Server.Monad.{
  M, pure, ◌>>=◌, ◌>>◌, deref, gets, load_auction, load_user, store_user, add_int, sub_int, strcat,
  sem_wait, sem_post, users_mutex, wr_msg,
}
use zbid.Users.Find.{find_user_struct, find_client_fd}

-- The pointer that `findUserStruct` returns, which is read at once.
unfoldable pub user_named : CharPtr → M ℕ
unfolding find_user_struct
user_named username = do
  users ← gets (λ s. s.users)
  found ← deref (find_user_struct username users)
  deref found

-- The winner pays the bid and has won the auction.
unfoldable pub charge_winner : CharPtr → Address → ℤ → M (Unit {0})
unfolding user_named load_user store_user sub_int sem_wait sem_post
charge_winner winner p bid = do
  sem_wait users_mutex
  i ← user_named winner
  u ← load_user i
  balance ← sub_int u.balance bid
  store_user i (record u { balance = balance; auctions_won = insert_at_tail u.auctions_won p })
  sem_post users_mutex

-- The creator is paid the bid.
unfoldable pub pay_creator : CharPtr → ℤ → M (Unit {0})
unfolding user_named load_user store_user add_int sem_wait sem_post
pay_creator creator bid = do
  sem_wait users_mutex
  i ← user_named creator
  u ← load_user i
  balance ← add_int u.balance bid
  store_user i (record u { balance = balance })
  sem_post users_mutex

-- The body of the message after the id, with the payment by the winner, if there is one.
unfoldable pub settle_winner : Auction → Address → Text → M Text
unfolding charge_winner strcat
settle_winner a p buf = elim a.current_winner [
  | none ↦ (do buf ← strcat buf crlf; strcat buf crlf)
  | some w ↦ (do
    buf ← strcat buf w.text
    buf ← strcat buf crlf
    buf ← strcat buf (print_int a.bid)
    charge_winner (some w) p a.bid
    pure buf)
]

-- The message goes to every watcher, to the descriptor that `findClientFd` returned for its name.
unfoldable pub notify_closed : Text → List CharPtr → M (Unit {0})
unfolding find_client_fd wr_msg
notify_closed buf [] = pure tt
notify_closed buf (w ∷ ws) = do
  fd ← find_client_fd w
  wr_msg fd MsgType.anclosed (length buf + 1) buf
  notify_closed buf ws

-- `closeAuction`.
unfoldable pub close_auction : Address → M (Unit {0})
unfolding settle_winner pay_creator notify_closed load_auction strcat
close_auction p = do
  a ← load_auction p
  buf ← strcat (print_int a.id) crlf
  buf ← settle_winner a p buf
  pay_creator a.creator a.bid
  notify_closed buf a.watchers
