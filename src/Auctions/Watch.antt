-- ===== src/Auctions/Watch.antt =====
-- `watchAuction` and `leaveAuction` of src/helpers.c.
use zbid.Base.{none, some, List, [], ℤ, pos}
use zbid.LinkedList.Contents.{insert_at_tail, remove_by_index}
use zbid.Server.{CharPtr, Address, Auction}
use zbid.Server.Protocol.{MsgType}
use zbid.Server.Print.{print_int, crlf}
use zbid.Server.Monad.{
  M, ◌>>=◌, ◌>>◌, deref, gets, load_auction, store_auction, add_int, sub_int, strcat, reply,
  reply_with,
}
use zbid.Users.Find.{find_user_index, client_user}
use zbid.Auctions.Find.{find_auction}

-- `InsertAtTail` of a name, which inserts no NULL.
unfoldable pub insert_name : CharPtr → List CharPtr → List CharPtr
insert_name none ws = ws
insert_name (some w) ws = insert_at_tail ws (some w)

-- The answer to a new watcher: the name of the item and the price at which it is sold at once.
unfoldable pub watch_reply : ℤ → Auction → M (Unit {0})
unfolding strcat reply_with
watch_reply client_fd a = do
  name ← deref a.name
  buf ← strcat [] name.text
  buf ← strcat buf crlf
  buf ← strcat buf (print_int a.bin_price)
  reply_with client_fd MsgType.anwatch buf

-- The body of the loop of `watchAuction` for the auction with the id.
unfoldable pub watch_found : ℤ → Address → M (Unit {0})
unfolding load_auction store_auction add_int client_user insert_name watch_reply
watch_found client_fd p = do
  a ← load_auction p
  n ← add_int a.number_of_watchers (pos 1)
  u ← client_user client_fd
  store_auction p
      (record a { number_of_watchers = n; watchers = insert_name u.username a.watchers })
  watch_reply client_fd a

-- `watchAuction`.
unfoldable pub watch_auction : ℤ → ℤ → M (Unit {0})
unfolding find_auction watch_found reply
watch_auction client_fd auction_id = do
  auctions ← gets (λ s. s.auctions)
  found ← find_auction auction_id auctions
  elim found [ none ↦ reply client_fd MsgType.eannotfound | some p ↦ watch_found client_fd p ]

-- The body of the loop of `leaveAuction` for the auction with the id.
unfoldable pub leave_found : CharPtr → Address → M (Unit {0})
unfolding load_auction store_auction sub_int find_user_index
leave_found username p = do
  a ← load_auction p
  n ← sub_int a.number_of_watchers (pos 1)
  index ← find_user_index a.watchers username
  ws ← deref (remove_by_index a.watchers index)
  store_auction p (record a { number_of_watchers = n; watchers = ws })

-- `leaveAuction`.
unfoldable pub leave_auction : ℤ → ℤ → M (Unit {0})
unfolding client_user find_auction leave_found reply
leave_auction client_fd auction_id = do
  u ← client_user client_fd
  auctions ← gets (λ s. s.auctions)
  found ← find_auction auction_id auctions
  elim found [
    | none ↦ reply client_fd MsgType.eannotfound
    | some p ↦ (do leave_found u.username p; reply client_fd MsgType.ok)
  ]
