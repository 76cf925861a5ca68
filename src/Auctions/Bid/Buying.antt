-- ===== src/Auctions/Bid/Buying.antt =====
-- What `bidAuction` of src/helpers.c does for a bid that buys the item at once.
use zbid.Base.{◌≡◌, sym, ap, ◌∙◌, true, false, some, ◌++◌, get_elem?, ℕ, ℤ}
use zbid.LinkedList.Contents.{remove_nth}
use zbid.Server.{CString, Address, User, Auction, Server, write}
use zbid.Server.Monad.{done}
use zbid.Server.Monad.Ensures.{Ensures-run}
use zbid.Users.Find.{client_user}
use zbid.Users.Find.Known.{names, Knows, find_user_struct-names}
use zbid.Auctions.Sound.{IsSound}
use zbid.Auctions.Ids.{id_of}
use zbid.Auctions.Find.{find_auction}
use zbid.Auctions.Close.Settle.{close_auction-Paid}
use zbid.Auctions.Close.Sold.{settled, sold_text, all_told, Sale, close_auction-Sold}
use zbid.Auctions.Bid.{same_pointer, place_bid, bid_auction}
use zbid.Auctions.Bid.Outcome.{watches, buys, found-IsSound, bid_auction-watches}
use zbid.Auctions.Bid.Leading.{leading}
use zbid.Invariant.{IsValid}
use zbid.Invariant.Update.{write_self, store-Keeps, Paid-Keeps}
use zbid.Invariant.Bidding.{led-IsSound}
use zbid.Invariant.Removing.{remove_auction-remove_nth}

-- When a bid buys the item.
pub record Buys (w : CString) (bid : ℤ) (a : Auction) : Type 0 where
  pub others : same_pointer a.creator (some w) ≡ false
  pub watching : watches w a.watchers ≡ true
  pub bought : buys a bid ≡ true

-- The state with the sold auction, and the one after the sale.
abbrev pub sold : Server → Address → Auction → Server
sold s p a = record s { heap = write s.heap p a }

abbrev pub after_sale : Server → Address → Auction → CString → ℕ → ℕ → User → User → Server
after_sale s p a w i j u v =
    let us = settled s.users i u j v p a.bid in
    record s {
      heap = write s.heap p a;
      users = us;
      sent = s.sent ++ all_told us (sold_text a w) a.watchers;
    }

module _ (s : Server) (p : Address) (a : Auction) (w c : CString) (bid : ℤ) (i j k : ℕ) (x y : User)
    (v : IsValid s) (at : s.heap p ≡ some a) (listed : get_elem? s.auctions k ≡ some p)
    (sale : Sale (sold s p (leading a w bid)) p (leading a w bid) w c i j x y) where
  winner-Knows : Knows (names s.users) (some w)
  winner-Knows = (i, sym (find_user_struct-names (some w) s.users) ∙ sale.winner)

  module _ (sound : IsSound (names s.users) a) where
    pub after-IsValid : IsValid (after_sale s p (leading a w bid) w i j x y)
    after-IsValid =
        let sound' = led-IsSound (names s.users) a w bid sound winner-Knows in
        let kept = store-Keeps p (leading a w bid) s v sound' (ap id_of at) in
        let here = write_self s.heap p (leading a w bid) in
        let t = after_sale s p (leading a w bid) w i j x y in
        let paid =
          Ensures-run
            (close_auction-Paid p (leading a w bid) (sold s p (leading a w bid)) v.users_free here
              sound')
            (close_auction-Sold (sold s p (leading a w bid)) p (leading a w bid) w c i j x y
              v.users_free here sound.watching sale) in
        (Paid-Keeps (sold s p (leading a w bid)) t paid kept.valid).valid

    -- A bid above the price, in a valid state.
    place_bid-Buys :
        (client_fd : ℤ)
        → buys a bid ≡ true
        → place_bid client_fd (some w) p bid s
          ≡ done tt (record (after_sale s p (leading a w bid) w i j x y) {
            auctions = remove_nth s.auctions k;
          })
    unfolding place_bid
    place_bid-Buys client_fd bought =
        rw
          (
            at,
            bought,
            close_auction-Sold (sold s p (leading a w bid)) p (leading a w bid) w c i j x y
                v.users_free (write_self s.heap p (leading a w bid)) sound.watching sale,
          )
          (remove_auction-remove_nth (after_sale s p (leading a w bid) w i j x y) k p
            (leading a w bid) after-IsValid listed (write_self s.heap p (leading a w bid)))

-- A bid above the price of an auction that is sold at once, by a logged-in watcher who has not
-- created it, in a valid state in which winner and creator are two users, their balances stay in
-- the range of `int` and the message fits in 1024 bytes, returns: the auction has the bid and its
-- winner and has left the list, which keeps its order; the winner's balance is less by the bid and
-- the auction stands last among those won, the creator's is more by the bid; every watcher is sent
-- one ANCLOSED with the id, the winner and the bid, in the order of the watchers; nothing else
-- changes, and nothing is answered to the bidder as such.
pub bid_auction-Buys :
    (client_fd auction_id bid : ℤ) (s : Server) (u : User) (w c : CString) (p : Address)
    (a : Auction) (i j k : ℕ) (x y : User)
    → IsValid s
    → client_user client_fd s ≡ done u s
    → u.username ≡ some w
    → find_auction auction_id s.auctions s ≡ done (some p) s
    → s.heap p ≡ some a
    → get_elem? s.auctions k ≡ some p
    → Buys w bid a
    → Sale (sold s p (leading a w bid)) p (leading a w bid) w c i j x y
    → bid_auction client_fd auction_id bid s
      ≡ done tt (record (after_sale s p (leading a w bid) w i j x y) {
        auctions = remove_nth s.auctions k;
      })
bid_auction-Buys client_fd auction_id bid s u w c p a i j k x y v user name found at listed b sale =
    bid_auction-watches client_fd auction_id bid s u w p a v user name found at b.others
    ∙ rw b.watching (
        place_bid-Buys s p a w c bid i j k x y v at listed sale
          (found-IsSound auction_id s p a v found at) client_fd b.bought)
