-- ===== src/System/House.antt =====
-- What the server's events come to, without addresses, descriptors, messages and semaphores: the
-- auctions on offer, the balances of the users and the last id (src/helpers.c, src/finalsample.c).
pub mod Accounts
pub mod Lots
pub mod Closing
pub mod Bidding
pub mod Ticking
pub mod Opening
pub mod Offering
pub mod Watching
pub mod Commands
pub mod Orders
pub mod Refines
pub mod Evolves
pub mod Lifetimes
use zbid.Base.{
  Bool, true, false, not, ◌&&◌, ◌||◌, Option, none, some, List, [], ◌∷◌, ◌++◌, ℕ, suc, set, ℤ, pos,
  eq_ℤ, ltb_ℤ, ◌+ℤ◌, ◌-ℤ◌, str_eq, if◌then◌else◌,
}
use zbid.LinkedList.Contents.{insert_at_tail, remove_nth}
use zbid.Server.{CString, CharPtr, Address, Heap, User, Auction, Server}
use zbid.Auctions.Create.{new_auction}
use zbid.Auctions.Watch.{insert_name}
use zbid.Auctions.Bid.{same_pointer}
use zbid.Auctions.Bid.Outcome.{watches, buys}
use zbid.Auctions.Bid.Leading.{leading}
use zbid.Invariant.Watching.{watched}
use zbid.Ticker.Walk.{later}

abbrev pub Accounts : Type 0
Accounts = List (CharPtr × ℤ)

-- The auctions in the order of the list, the balances by user, and the id of the last auction made.
pub record House : Type 0 where
  pub lots : List Auction
  pub accounts : Accounts
  pub last_id : ℤ

-- The auction at an address, where there is one, in front of the others.
abbrev pub lot_or : Option Auction → List Auction → List Auction
lot_or none rest = rest
lot_or (some a) rest = a ∷ rest

abbrev pub lots_of : Heap → List Address → List Auction
lots_of h [] = []
lots_of h (p ∷ ps) = lot_or (h p) (lots_of h ps)

abbrev pub accounts_of : List User → Accounts
accounts_of [] = []
accounts_of (u ∷ us) = (u.username, u.balance) ∷ accounts_of us

abbrev pub house : Server → House
house s = record {
  lots = lots_of s.heap s.auctions;
  accounts = accounts_of s.users;
  last_id = s.auction_id;
}

-- The balance of the first user with the name changes.
abbrev pub has_name : CharPtr → CharPtr → Bool
has_name (some w) (some n) = str_eq w.text n.text
has_name _ _ = false

abbrev pub pay : CharPtr → (ℤ → ℤ) → Accounts → Accounts
pay w change [] = []
pay w change ((n, b) ∷ rest) =
    if has_name w n then (n, change b) ∷ rest else (n, b) ∷ pay w change rest

abbrev pub charge : CharPtr → ℤ → Accounts → Accounts
charge none bid x = x
charge (some w) bid x = pay (some w) (λ b. b -ℤ bid) x

abbrev pub credit : CharPtr → ℤ → Accounts → Accounts
credit c bid = pay c λ b. b +ℤ bid

-- The end of an auction: its leader, if there is one, pays the creator the bid.
abbrev pub settled : Auction → Accounts → Accounts
settled a x = credit a.creator a.bid (charge a.current_winner a.bid x)

-- The first auction with the id, and its place.
abbrev pub behind : Option (ℕ × Auction) → Option (ℕ × Auction)
behind none = none
behind (some (k, a)) = some (suc k, a)

abbrev pub find_lot : ℤ → List Auction → Option (ℕ × Auction)
find_lot id [] = none
find_lot id (a ∷ rest) = if eq_ℤ a.id id then some (0, a) else behind (find_lot id rest)

abbrev pub at_lot : Option (ℕ × Auction) → (ℕ → Auction → House → House) → House → House
at_lot none act h = h
at_lot (some (k, a)) act h = act k a h

-- A bid on the auction at a place: the bidder is not its creator and watches it, and the bid is
-- above the price, so that the auction is sold, or above the last bid, so that it leads.
abbrev pub is_heard : CString → Auction → Bool
is_heard w a = not (same_pointer a.creator (some w)) && watches w a.watchers

abbrev pub placed : CString → ℤ → ℕ → Auction → House → House
placed w bid k a h =
    if buys a bid
    then record h { lots = remove_nth h.lots k; accounts = settled (leading a w bid) h.accounts }
    else if ltb_ℤ a.bid bid
    then record h { lots = set h.lots k (leading a w bid) }
    else h

abbrev pub bid_at : CString → ℤ → ℕ → Auction → House → House
bid_at w bid k a h = if is_heard w a then placed w bid k a h else h

-- A bid by a user on the auction with an id: where there is none, nothing happens.
abbrev pub bid : CString → ℤ → ℤ → House → House
bid w id amount h = at_lot (find_lot id h.lots) (bid_at w amount) h

-- A user watches the auction with an id.
abbrev pub watch : CharPtr → ℤ → House → House
watch w id h =
    at_lot (find_lot id h.lots)
      (λ k a g. record g {
        lots = set g.lots k (watched a (a.number_of_watchers +ℤ pos 1) (insert_name w a.watchers));
      })
      h

-- The names without the first that is the one given.
abbrev pub without : CharPtr → List CharPtr → List CharPtr
without w [] = []
without w (x ∷ xs) = if has_name w x then xs else x ∷ without w xs

-- A user leaves the auction with an id.
abbrev pub leave : CharPtr → ℤ → House → House
leave w id h =
    at_lot (find_lot id h.lots)
      (λ k a g. record g {
        lots = set g.lots k (watched a (a.number_of_watchers -ℤ pos 1) (without w a.watchers));
      })
      h

-- A user offers an item: the name is not empty, the duration is a tick or more, and the price is
-- not negative. What `malloc` left in the block shows in the number of watchers.
abbrev pub offer : Auction → CharPtr → CString → ℤ → ℤ → House → House
offer block creator item duration price h =
    if str_eq item.text [] || (ltb_ℤ duration (pos 1) || ltb_ℤ price (pos 0)) then h else record h {
      lots =
          insert_at_tail h.lots
            (new_auction block (h.last_id +ℤ pos 1) (some item) duration price creator);
      last_id = h.last_id +ℤ pos 1;
    }

-- A tick: each auction loses one, up to the first that has none left; that one ends.
abbrev pub tick_lots : List Auction → Accounts → List Auction × Accounts
tick_lots [] x = ([], x)
tick_lots (a ∷ rest) x =
    let after = tick_lots rest x in
    if eq_ℤ (later a).duration (pos 0)
    then (rest, settled (later a) x)
    else (later a ∷ after.0, after.1)

-- The auctions in front stay.
abbrev pub ticked : List Auction → List Auction × Accounts → House → House
ticked front after h = record h { lots = front ++ after.0; accounts = after.1 }

abbrev pub strike : House → House
strike h = ticked [] (tick_lots h.lots h.accounts) h

-- A name that nobody has opens an account.
abbrev pub holds : CharPtr → Accounts → Bool
holds w [] = false
holds w ((n, b) ∷ rest) = has_name w n || holds w rest

abbrev pub open_account : CharPtr → House → House
open_account w h =
    if holds w h.accounts then h else record h { accounts = insert_at_tail h.accounts (w, pos 0) }
