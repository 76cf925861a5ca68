-- ===== src/Invariant.antt =====
-- The invariant of the server's state, which src/helpers.c relies on wherever it reads a pointer.
pub mod Lookup
pub mod Listing
pub mod Update
pub mod Bidding
pub mod Watching
pub mod Creating
pub mod Session
pub mod Ticking
pub mod Reporting
pub mod Processing
pub mod Accepting
pub mod Removing
pub mod Gone
use zbid.Base.{ℕ, ◌≡◌, Option, none, some, List, All}
use zbid.Server.{CString, CharPtr, Address, Heap, Auction, Server}
use zbid.Users.Find.Known.{names, passwords}
use zbid.Users.Total.{total}
use zbid.Auctions.Ids.{ids, IsNumbered}
use zbid.Auctions.Sound.{IsSound, Holdings}

-- At the address lies an auction that is sound.
abbrev pub Listed : Heap → List CharPtr → Address → Type 0
Listed h ns p = (a : Auction) × (h p ≡ some a) × IsSound ns a

-- A pointer that is not NULL.
abbrev pub IsNonNull : CharPtr → Type 0
IsNonNull c = (n : CString) × (c ≡ some n)

-- Every listed auction is sound, every user has a name and a password and holds auctions that can be
-- read, the ids of the listed auctions are distinct and not above the counter, the semaphore of the
-- ids is free, and that of the users has the value `m`.
pub record IsValidAt (m : ℕ) (s : Server) : Type 0 where
  pub listed : All (Listed s.heap (names s.users)) s.auctions
  pub named : All IsNonNull (names s.users)
  pub secured : All IsNonNull (passwords s.users)
  pub held : All (Holdings s.heap) s.users
  pub numbered : IsNumbered s.auction_id (ids s.heap s.auctions)
  pub users_free : s.users_mutex ≡ m
  pub ids_free : s.auction_id_mutex ≡ 1

abbrev pub IsValid : Server → Type 0
IsValid = IsValidAt 1

-- What a handler that ends leaves: the invariant, the sum of the balances, and the semaphore under
-- which it was called.
pub record KeepsAt (m : ℕ) (s t : Server) : Type 0 where
  pub valid : IsValidAt m t
  pub money : total t.users ≡ total s.users
  pub mutex : t.auctions_mutex ≡ s.auctions_mutex

abbrev pub Keeps : Server → Server → Type 0
Keeps = KeepsAt 1
