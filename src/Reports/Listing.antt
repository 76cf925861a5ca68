-- ===== src/Reports/Listing.antt =====
-- `listAuctions` with `auctionInfo`, and `printUsers`, of src/helpers.c.
use zbid.Base.{List, [], ◌∷◌, ℤ, eq_ℤ, Text, if◌then◌else◌}
use zbid.Server.{Address, User, Auction}
use zbid.Server.Protocol.{MsgType}
use zbid.Server.Print.{print_int, semicolon, newline}
use zbid.Server.Monad.{M, pure, ◌>>=◌, deref, gets, load_auction, strcat, reply, reply_with}

-- `auctionInfo`: "id;name;bin_price;watchers;bid;duration\n" behind what `str` holds.
unfoldable pub auction_info : Auction → Text → M Text
unfolding strcat
auction_info a str = do
  str ← strcat str (print_int a.id)
  str ← strcat str semicolon
  name ← deref a.name
  str ← strcat str name.text
  str ← strcat str semicolon
  str ← strcat str (print_int a.bin_price)
  str ← strcat str semicolon
  str ← strcat str (print_int a.number_of_watchers)
  str ← strcat str semicolon
  str ← strcat str (print_int a.bid)
  str ← strcat str semicolon
  str ← strcat str (print_int a.duration)
  strcat str newline

-- The loop of `listAuctions`.
unfoldable pub list_loop : List Address → Text → M Text
unfolding auction_info load_auction
list_loop [] buf = pure buf
list_loop (p ∷ ps) buf = do a ← load_auction p; buf ← auction_info a buf; list_loop ps buf

-- The answer, by whether the list is empty.
unfoldable pub list_reply : ℤ → List Address → M (Unit {0})
unfolding list_loop reply reply_with
list_reply client_fd [] = reply client_fd MsgType.anlist
list_reply client_fd (p ∷ ps) = do
  buf ← list_loop (p ∷ ps) []
  reply_with client_fd MsgType.anlist buf

-- `listAuctions`.
unfoldable pub list_auctions : ℤ → M (Unit {0})
unfolding list_reply
list_auctions client_fd = do auctions ← gets (λ s. s.auctions); list_reply client_fd auctions

-- The loop of `printUsers`.
unfoldable pub users_loop : ℤ → List User → Text → M Text
unfolding strcat
users_loop client_fd [] buf = pure buf
users_loop client_fd (u ∷ us) buf = do
  buf ←
      if eq_ℤ u.fd client_fd
      then pure buf
      else (do name ← deref u.username; buf ← strcat buf name.text; strcat buf newline)
  users_loop client_fd us buf

-- `printUsers`. Its buffer is never set to the empty text: `stack` is what it holds at the start.
unfoldable pub print_users : Text → ℤ → M (Unit {0})
unfolding users_loop reply_with
print_users stack client_fd = do
  users ← gets (λ s. s.users)
  buf ← users_loop client_fd users stack
  reply_with client_fd MsgType.usrlist buf
