-- ===== src/Auctions/Sound.antt =====
-- What every auction in `auctionsList` satisfies.
use zbid.Base.{◌≡◌, none, some, ℤ, pos, All, List}
use zbid.Server.{CString, CharPtr, Address, Heap, User, Auction}
use zbid.Users.Find.Known.{Knows}

-- Nobody leads, or a user does.
abbrev pub IsLed : List CharPtr → CharPtr → ℤ → Type 0
IsLed ns none bid = bid ≡ pos 0
IsLed ns (some w) bid = Knows ns (some w)

-- Over the names of the users: the creator and the watchers are users, and so is the leader, before
-- whom the bid is 0; the auction has a name.
pub record IsSound (ns : List CharPtr) (a : Auction) : Type 0 where
  pub created : (c : CString) × (a.creator ≡ some c) × Knows ns (some c)
  pub led : IsLed ns a.current_winner a.bid
  pub watching : All (Knows ns) a.watchers
  pub named : (n : CString) × (a.name ≡ some n)

-- At the address lies an auction that has a name.
abbrev pub Readable : Heap → Address → Type 0
Readable h p = (a : Auction) × (h p ≡ some a) × ((n : CString) × (a.name ≡ some n))

-- What the user has created and what the user has won can be read.
abbrev pub Holdings : Heap → User → Type 0
Holdings h u = All (Readable h) u.auctions_owned × All (Readable h) u.auctions_won
