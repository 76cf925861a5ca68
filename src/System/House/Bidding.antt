-- ===== src/System/House/Bidding.antt =====
-- `bidAuction` of src/helpers.c does what the bid on the house does.
use zbid.Base.{
  ◌≡◌, refl, ap, sym, ◌∙◌, Bool-cases, inl, inr, Option, none, some, List, [], ◌∷◌, ℕ, ℤ, ltb_ℤ,
  get_elem?, set,
}
use zbid.LinkedList.Contents.{remove_nth}
use zbid.Server.{CString, CharPtr, Address, User, Auction, Server, write}
use zbid.Server.Monad.{done}
use zbid.Server.Monad.Ensures
use zbid.Server.Monad.Ensures.{Ensures, returns, bounded}
use zbid.Users.Find.{client_user, find_username}
use zbid.Users.Find.Known.{names, Knows}
use zbid.Auctions.Sound.{IsSound}
use zbid.Auctions.Ids.{id_of}
use zbid.Auctions.Find.{find_auction}
use zbid.Auctions.Bid.{same_pointer, place_bid, bid_in, bid_auction}
use zbid.Auctions.Bid.Outcome.{
  watches, buys, found-IsSound, bid_auction-watches, bid_auction-Refused, own_auction,
}
use zbid.Auctions.Find.{remove_auction}
use zbid.Auctions.Close.{close_auction}
use zbid.Auctions.Close.Settle.{close_auction-Paid}
use zbid.Auctions.Bid.Leading.{leading}
use zbid.Invariant.{IsValid}
use zbid.Invariant.Lookup.{Found, find_auction-done, Knows-self}
use zbid.Invariant.Update.{write_self, store-Keeps, Paid-Keeps}
use zbid.Invariant.Bidding.{led-IsSound, update_auction-OnlySends}
use zbid.Invariant.Removing.{remove_auction-remove_nth}
use zbid.System.House
use zbid.System.House.{House, house, lots_of, accounts_of, settled, placed, bid_at, at_lot}
use zbid.System.House.Lots.{
  find_lot-none, find_lot-some, lots_of-set, lots_of-remove_nth, remove_nth-set,
}
use zbid.System.House.Closing.{both, Moves, close_auction-Moves}

module _ (client_fd : ℤ) (w : CString) (p : Address) (bid : ℤ) (a : Auction) (k : ℕ) (s : Server)
    (v : IsValid s) (known : Knows (names s.users) (some w)) (here : s.heap p ≡ some a)
    (sound : IsSound (names s.users) a) (at : get_elem? s.auctions k ≡ some p) where
  abbrev led : Auction
  led = leading a w bid

  abbrev stored : Server
  stored = record s { heap = write s.heap p led }

  stored-IsValid : IsValid stored
  stored-IsValid =
      (store-Keeps p led s v (led-IsSound (names s.users) a w bid sound known)
        (ap id_of here)).valid

  led-lots : lots_of (write s.heap p led) s.auctions ≡ set (lots_of s.heap s.auctions) k led
  led-lots = lots_of-set s.heap (names s.users) p led s.auctions k v.listed v.numbered.1 at

  sold-lots :
      lots_of (write s.heap p led) (remove_nth s.auctions k)
      ≡ remove_nth (lots_of s.heap s.auctions) k
  sold-lots =
      lots_of-remove_nth (write s.heap p led) (names s.users) s.auctions k stored-IsValid.listed
      ∙ ap (λ r. remove_nth r k) led-lots
      ∙ remove_nth-set (lots_of s.heap s.auctions) k led

  -- The sale, before the auction leaves the list.
  record Sells (t : Server) : Type 0 where
    moves : Moves (settled led) stored t
    valid : IsValid t

  close_auction-Sells : Ensures (λ _ t. Sells t) (close_auction p stored)
  close_auction-Sells =
      let sound_led = led-IsSound (names s.users) a w bid sound known in
      let there = write_self s.heap p led in
      both (close_auction-Moves p led stored v.users_free there sound_led)
        (close_auction-Paid p led stored v.users_free there sound_led)
        λ _ t m paid. record { moves = m; valid = (Paid-Keeps stored t paid stored-IsValid).valid }

  removes-sold :
      (t : Server)
      → Sells t
      → (remove_auction p t ≡ done tt (record t { auctions = remove_nth t.auctions k }))
        × (house (record t { auctions = remove_nth t.auctions k }) ≡ record {
          lots = remove_nth (lots_of s.heap s.auctions) k;
          accounts = settled led (accounts_of s.users);
          last_id = s.auction_id;
        })
  removes-sold t sells =
      let m = sells.moves in
      let lots : lots_of t.heap (remove_nth t.auctions k)
          ≡ remove_nth (lots_of s.heap s.auctions) k =
        (rw (m.same_heap, m.same_auctions) sold-lots) in
      (
        remove_auction-remove_nth t k p led sells.valid (rw m.same_auctions at)
            (rw m.same_heap (write_self s.heap p led)),
        λ i. record { lots = lots i; accounts = m.moved i; last_id = m.same_id i },
      )

  place_bid-placed :
      Ensures (λ _ t. house t ≡ placed w bid k a (house s)) (place_bid client_fd (some w) p bid s)
  unfolding place_bid
  place_bid-placed = elim (Bool-cases (buys a bid)) [
    | inl bought ↦
        rw (here, bought)
          (Ensures.bind close_auction-Sells
            λ _ t sells. let (removes, after) = removes-sold t sells in rw removes (returns after))
    | inr unbought ↦ elim (Bool-cases (ltb_ℤ a.bid bid)) [
      | inl higher ↦
          rw (here, unbought, higher, v.ids_free)
            (Ensures.bind
              (update_auction-OnlySends p w led (record stored { auction_id_mutex = 0 })
                (write_self s.heap p led) (led-IsSound (names s.users) a w bid sound known))
              λ _ t (ms, e). rw e (
                returns (λ i. record {
                  lots = led-lots i;
                  accounts = accounts_of s.users;
                  last_id = s.auction_id;
                })))
      | inr low ↦ rw (here, unbought, low) (returns refl)
    ]
  ]

-- A search that finds nothing: an answer, or none.
bid_in-none :
    (client_fd auction_id bid : ℤ) (c : CharPtr) (ps : List Address) (s : Server)
    → find_auction auction_id ps s ≡ done none s
    → Ensures (λ _ t. house t ≡ house s) (bid_in client_fd c auction_id bid ps s)
unfolding bid_in
bid_in-none client_fd auction_id bid c [] s nothing = returns refl
bid_in-none client_fd auction_id bid c (q ∷ qs) s nothing = rw nothing (returns refl)

-- `bidAuction` by a logged-in client, in a valid state, reads no NULL pointer and waits for no
-- semaphore; where it returns, the auctions on offer and the balances are what the bid on the house
-- leaves: nothing changes where no auction has the id, the bidder created it or does not watch it,
-- or the bid is too low; a bid above the price sells the auction, which leaves the list, and moves
-- the bid from the bidder to the creator; any other that is higher makes the bidder its leader. It
-- may stop only at a full buffer or an `int` out of range.
pub bid_auction-house :
    (client_fd auction_id bid : ℤ) (i : ℕ) (u : User) (w : CString) (s : Server)
    → IsValid s
    → find_username client_fd s.users ≡ some i
    → get_elem? s.users i ≡ some u
    → u.username ≡ some w
    → Ensures
        (λ _ t. house t ≡ House.bid w auction_id bid (house s))
        (bid_auction client_fd auction_id bid s)
unfolding bid_auction client_user
bid_auction-house client_fd auction_id bid i u w s v by_fd at_i name =
    go (find_auction-done auction_id s.auctions s v.listed)
  where
    user : client_user client_fd s ≡ done u s
    user = rw (by_fd, at_i) refl

    known : Knows (names s.users) (some w)
    known = rw (sym name) (Knows-self s.users i u at_i v.named)

    heard :
        (p : Address) (a : Auction) (k : ℕ)
        → find_auction auction_id s.auctions s ≡ done (some p) s
        → s.heap p ≡ some a
        → get_elem? s.auctions k ≡ some p
        → Ensures
            (λ _ t. house t ≡ bid_at w bid k a (house s))
            (bid_auction client_fd auction_id bid s)
    heard p a k found here at = elim (Bool-cases (same_pointer a.creator (some w))) [
      | inl own ↦
          rw
            (
              own,
              bid_auction-Refused client_fd auction_id bid s u w p a v user name found here
                  (own_auction own),
            )
            (returns refl)
      | inr others ↦
          rw
            (
              others,
              bid_auction-watches client_fd auction_id bid s u w p a v user name found here others,
            )
            (elim (Bool-cases (watches w a.watchers)) [
              | inl watching ↦ rw watching (
                  place_bid-placed client_fd w p bid a k s v known here
                    (found-IsSound auction_id s p a v found here) at)
              | inr stranger ↦ rw stranger (returns refl)
            ])
    ]

    go :
        ((r : Option Address) × (find_auction auction_id s.auctions s ≡ done r s)
          × Found s auction_id s.auctions r)
        → Ensures
            (λ _ t. house t ≡ House.bid w auction_id bid (house s))
            (bid_auction client_fd auction_id bid s)
    go (none, found, _) =
        rw (user, find_lot-none s (names s.users) auction_id s.auctions v.listed found)
          (bid_in-none client_fd auction_id bid u.username s.auctions s found)
    go (some p, found, (a, here, _, _, _)) =
        let (k, at, lot) =
          find_lot-some s (names s.users) auction_id s.auctions p a v.listed here found in
        rw lot (heard p a k found here at)
