-- ===== src/Server.antt =====
-- The state that the server's threads share (include/structs.h, src/server.c): the users, the
-- auctions, the semaphores and the messages handed to `wr_msg`.
pub mod Protocol
pub mod Print
pub mod Monad
use zbid.Base.{ℕ, ◌==◌, Option, none, some, List, Bool, ℤ, Text, if◌then◌else◌}
use Protocol.{Message}

-- A string that is not NULL: its address, by which `bidAuction` compares, and its bytes.
pub record CString : Type 0 where
  pub address : ℕ
  pub text : Text

-- `char *`; `none` is NULL.
abbrev pub CharPtr : Type 0
CharPtr = Option CString

-- Where an object that `malloc` returned lies.
abbrev pub Address : Type 0
Address = ℕ

-- `users_t`. The three lists hold the addresses of auctions; `auctionsSold` is never assigned.
pub record User : Type 0 where
  pub username : CharPtr
  pub password : CharPtr
  pub login_flag : Bool
  pub balance : ℤ
  pub fd : ℤ
  pub auctions_owned : List Address
  pub auctions_won : List Address
  pub auctions_sold : Address

-- `auctions_t`.
pub record Auction : Type 0 where
  pub id : ℤ
  pub name : CharPtr
  pub duration : ℤ
  pub bin_price : ℤ
  pub bin_flag : Bool
  pub bid : ℤ
  pub current_winner : CharPtr
  pub creator : CharPtr
  pub watchers : List CharPtr
  pub number_of_watchers : ℤ

-- The objects that auctions are: never freed, so `auctionsOwned` and `auctionsWon` stay valid.
abbrev pub Heap : Type 0
Heap = Address → Option Auction

unfoldable pub write : Heap → Address → Auction → Heap
write h p a q = if q == p then some a else h q

-- `usersList` and `auctionsList` in order, the counters, the values of the three semaphores and
-- the calls of `wr_msg`, the oldest first.
pub record Server : Type 0 where
  pub users : List User
  pub auctions : List Address
  pub heap : Heap
  pub auction_id : ℤ
  pub tick : ℤ
  pub users_mutex : ℕ
  pub auctions_mutex : ℕ
  pub auction_id_mutex : ℕ
  pub sent : List Message
