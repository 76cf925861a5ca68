-- ===== src/Auctions/Bid.antt =====
-- `updateAuction` and `bidAuction` of src/helpers.c.
pub mod Outcome
pub mod Leading
pub mod Buying
use zbid.Base.{
  ◌==◌, ◌+◌, ◌&&◌, Bool, true, false, none, some, List, [], ◌∷◌, length, ℤ, negsuc, ltb_ℤ, eq_ℤ,
  Text, if◌then◌else◌,
}
use zbid.Server.{CharPtr, Address}
use zbid.Server.Protocol.{MsgType}
use zbid.Server.Print.{print_int, crlf}
use zbid.Server.Monad.{
  strcmp, M, pure, ◌>>=◌, ◌>>◌, deref, gets, load_auction, store_auction, strcat, sem_wait,
  sem_post, auction_id_mutex, wr_msg, reply,
}
use zbid.Users.Find.{find_client_fd, client_user}
use zbid.Auctions.Find.{find_auction, remove_auction}
use zbid.Auctions.Close.{close_auction}

-- `a == b` on pointers.
unfoldable pub same_pointer : CharPtr → CharPtr → Bool
same_pointer none none = true
same_pointer none (some b) = false
same_pointer (some a) none = false
same_pointer (some a) (some b) = a.address == b.address

-- The message goes to every watcher whose name a user has.
unfoldable pub notify_update : Text → List CharPtr → M (Unit {0})
unfolding find_client_fd wr_msg
notify_update buf [] = pure tt
notify_update buf (w ∷ ws) = do
  fd ← find_client_fd w
  if eq_ℤ fd (negsuc 0) then pure tt else wr_msg fd MsgType.anupdate (length buf + 1) buf
  notify_update buf ws

-- `updateAuction`.
unfoldable pub update_auction : Address → CharPtr → M (Unit {0})
unfolding load_auction strcat notify_update
update_auction p from_username = do
  a ← load_auction p
  buf ← strcat (print_int a.id) crlf
  name ← deref a.name
  buf ← strcat buf name.text
  buf ← strcat buf crlf
  from ← deref from_username
  buf ← strcat buf from.text
  buf ← strcat buf crlf
  buf ← strcat buf (print_int a.bid)
  notify_update buf a.watchers

-- The bid of a watcher: it buys the auction, or leads, or is too low.
unfoldable pub place_bid : ℤ → CharPtr → Address → ℤ → M (Unit {0})
unfolding load_auction store_auction close_auction remove_auction update_auction sem_wait sem_post
    reply
place_bid client_fd username p bid = do
  a ← load_auction p
  let led = record a { bid = bid; current_winner = username }
  if a.bin_flag && ltb_ℤ a.bin_price bid
      then (do store_auction p led; close_auction p; remove_auction p)
      else if ltb_ℤ a.bid bid
      then (do
        store_auction p led
        sem_wait auction_id_mutex
        update_auction p username
        sem_post auction_id_mutex
        reply client_fd MsgType.ok)
      else reply client_fd MsgType.ebidlow

-- The loop over the watchers: the bid is placed at the first that has the bidder's name.
unfoldable pub bid_as_watcher : ℤ → CharPtr → Address → ℤ → List CharPtr → M (Unit {0})
unfolding place_bid reply
bid_as_watcher client_fd username p bid [] = reply client_fd MsgType.eandenied
bid_as_watcher client_fd username p bid (w ∷ ws) = do
  same ← deref (strcmp w username)
  if same then place_bid client_fd username p bid else bid_as_watcher client_fd username p bid ws

-- The body of the loop of `bidAuction` for the auction with the id.
unfoldable pub bid_found : ℤ → CharPtr → Address → ℤ → M (Unit {0})
unfolding load_auction same_pointer bid_as_watcher reply
bid_found client_fd username p bid = do
  a ← load_auction p
  if same_pointer a.creator username
      then reply client_fd MsgType.eandenied
      else bid_as_watcher client_fd username p bid a.watchers

-- The loop over `auctionsList`.
unfoldable pub bid_in : ℤ → CharPtr → ℤ → ℤ → List Address → M (Unit {0})
unfolding find_auction bid_found reply
bid_in client_fd username auction_id bid [] = reply client_fd MsgType.eannotfound
bid_in client_fd username auction_id bid (q ∷ qs) = do
  found ← find_auction auction_id (q ∷ qs)
  elim found [ none ↦ pure tt | some p ↦ bid_found client_fd username p bid ]

-- `bidAuction`: where the list is not empty and no auction has the id, nothing is answered.
unfoldable pub bid_auction : ℤ → ℤ → ℤ → M (Unit {0})
unfolding client_user bid_in
bid_auction client_fd auction_id bid = do
  u ← client_user client_fd
  auctions ← gets (λ s. s.auctions)
  bid_in client_fd u.username auction_id bid auctions
