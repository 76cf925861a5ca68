-- ===== src/System/Race.antt =====
-- A bid that buys an auction while the ticker waits to close it. `run_tick` of src/finalsample.c
-- counts the auction down before it takes the semaphore of the auctions.
use zbid.Base.{
  ◌≡◌, refl, ap, sym, ◌∙◌, subst, true, if◌then◌else◌, fits_int, some, List, ◌++◌, ℕ, ℤ, pos, ◌-ℤ◌,
  eq_ℤ, All-get_elem?, get_elem?,
}
use mathlib.Core.Option.{some-injective}
use zbid.LinkedList.Contents.{remove_nth}
use zbid.Server.{CString, Address, User, Auction, Server, write}
use zbid.Server.Monad.{
  M, done, stop, null_deref, ◌>>=◌, ◌>>◌, auctions_mutex, load_auction, store_auction, sub_int,
}
use zbid.Users.Find.{client_user}
use zbid.Users.Find.Known.{names}
use zbid.Auctions.Sound.{IsSound}
use zbid.Auctions.Ids.{id_of}
use zbid.Auctions.Find.{find_auction, remove_auction}
use zbid.Auctions.Close.{close_auction}
use zbid.Auctions.Close.Sold.{
  charged, credited, settled, sold_text, all_told, Sale, close_auction-Sold,
}
use zbid.Auctions.Bid.{bid_auction}
use zbid.Auctions.Bid.Leading.{leading}
use zbid.Auctions.Bid.Buying.{Buys, sold, after_sale, after-IsValid, bid_auction-Buys}
use zbid.Jobs.Process.{locked}
use zbid.Ticker.{count_down, expire, tick_auctions}
use zbid.Ticker.Walk.{later}
use zbid.Invariant.{Listed, IsValid}
use zbid.Invariant.Gone.{remove_auction-gone}
use zbid.Invariant.Update.{write_self, store-Keeps}
use zbid.Invariant.Ticking.{mutex-IsValid, timed-IsSound}

-- The ticker has counted the auction down, and the bidder holds the semaphore.
abbrev pub racing : Server → Address → Auction → Server
racing s p b = record s { heap = write s.heap p (later b); auctions_mutex = 0 }

-- The state after the sale to the bidder, and the one after a second closing.
abbrev pub bought : Server → Address → Auction → CString → ℕ → ℕ → ℕ → User → User → Server
bought s p a w i j k x y = record (after_sale s p a w i j x y) {
  auctions = remove_nth s.auctions k;
}

abbrev pub closed_again : Server → Address → Auction → CString → ℕ → ℕ → User → User → Server
closed_again t p a w i j x y =
    let us = settled t.users i (charged x p a.bid) j (credited y a.bid) p a.bid in
    record t { users = us; sent = t.sent ++ all_told us (sold_text a w) a.watchers }

module _ (s : Server) (p : Address) (b : Auction) (k : ℕ) (v : IsValid s)
    (listed : get_elem? s.auctions k ≡ some p) (here : s.heap p ≡ some b) where
  racing-IsValid : IsValid (racing s p b)
  racing-IsValid =
      let (c, there, sound) =
        All-get_elem? (Listed s.heap (names s.users)) s.auctions k listed v.listed in
      let sound_b = subst (IsSound (names s.users)) (some-injective c b (sym there ∙ here)) sound in
      let d = b.duration -ℤ pos 1 in
      let kept =
        store-Keeps p (later b) s v (timed-IsSound (names s.users) b d sound_b) (ap id_of here) in
      mutex-IsValid 0 _ kept.valid

  module _ (w c : CString) (bid : ℤ) (i j : ℕ) (x y : User)
      (first : Sale
        (sold (racing s p b) p (leading (later b) w bid))
        p
        (leading (later b) w bid)
        w
        c
        i
        j
        x
        y)
      (second : Sale
        (bought (racing s p b) p (leading (later b) w bid) w i j k x y)
        p
        (leading (later b) w bid)
        w
        c
        i
        j
        (charged x p bid)
        (credited y bid)) where
    abbrev held : Server
    held = racing s p b

    abbrev led : Auction
    led = leading (later b) w bid

    abbrev after : Server
    after = bought held p led w i j k x y

    sold-IsValid : IsValid (after_sale held p led w i j x y)
    sold-IsValid =
        let (e, there, sound) =
          All-get_elem? (Listed held.heap (names s.users)) s.auctions k listed
            racing-IsValid.listed in
        let same = some-injective e (later b) (sym there ∙ write_self s.heap p (later b)) in
        after-IsValid held p (later b) w c bid i j k x y racing-IsValid
          (write_self s.heap p (later b)) listed first (subst (IsSound (names s.users)) same sound)

    closes-again : close_auction p after ≡ done tt (closed_again after p led w i j x y)
    closes-again =
        let (e, there, sound) =
          All-get_elem? (Listed after.heap (names after.users)) s.auctions k listed
            sold-IsValid.listed in
        let same = some-injective e led (sym there ∙ write_self held.heap p led) in
        close_auction-Sold after p led w c i j (charged x p bid) (credited y bid)
          sold-IsValid.users_free (write_self held.heap p led)
          (subst (IsSound (names after.users)) same sound).watching second

    crashes : remove_auction p (closed_again after p led w i j x y) ≡ stop null_deref
    crashes =
        remove_auction-gone (record (closed_again after p led w i j x y) { auctions = s.auctions })
          (names after.users) s.auctions k p led sold-IsValid.listed sold-IsValid.numbered.1 listed
          (write_self held.heap p led)

    expire-crash : expire p (record after { auctions_mutex = 1 }) ≡ stop null_deref
    unfolding expire
    expire-crash = rw (closes-again, crashes) refl

-- `tick_auctions` from an auction on, with a handler of another thread, under the semaphore of the
-- auctions, after the auction is counted down.
abbrev pub tick_around : M (Unit {0}) → Address → List Address → M (Unit {0})
tick_around handler p ps = do
  left ← count_down p
  locked auctions_mutex handler
  if eq_ℤ left (pos 0) then expire p else tick_auctions ps

last_tick :
    (d : ℤ) → d ≡ pos 1 → (fits_int (d -ℤ pos 1) ≡ true) × (eq_ℤ (d -ℤ pos 1) (pos 0) ≡ true)
unfolding fits_int ◌-ℤ◌ eq_ℤ
last_tick d last = rw last (refl, refl)

-- The ticker takes the last tick of a listed auction, in a valid state with the semaphore of the
-- auctions free, and before it gets the semaphore a bid buys the auction, by a logged-in watcher who
-- has not created it, with balances that stay in the range of `int` twice. Then the auction is
-- closed once more: the winner is charged twice, the creator is paid twice, the watchers are told
-- twice; and the removal of the auction, which has left the list, reads through NULL.
pub tick_around-crash :
    (client_fd auction_id bid : ℤ) (s : Server) (u : User) (w c : CString) (p : Address)
    (b : Auction) (ps : List Address) (i j k : ℕ) (x y : User)
    → IsValid s
    → s.auctions_mutex ≡ 1
    → get_elem? s.auctions k ≡ some p
    → s.heap p ≡ some b
    → b.duration ≡ pos 1
    → client_user client_fd (racing s p b) ≡ done u (racing s p b)
    → u.username ≡ some w
    → find_auction auction_id s.auctions (racing s p b) ≡ done (some p) (racing s p b)
    → Buys w bid (later b)
    → Sale (sold (racing s p b) p (leading (later b) w bid)) p (leading (later b) w bid) w c i j x y
    → Sale
        (bought (racing s p b) p (leading (later b) w bid) w i j k x y)
        p
        (leading (later b) w bid)
        w
        c
        i
        j
        (charged x p bid)
        (credited y bid)
    → (close_auction p (bought (racing s p b) p (leading (later b) w bid) w i j k x y)
        ≡ done tt (
            closed_again
              (bought (racing s p b) p (leading (later b) w bid) w i j k x y)
              p
              (leading (later b) w bid)
              w
              i
              j
              x
              y))
      × (tick_around (bid_auction client_fd auction_id bid) p ps s ≡ stop null_deref)
unfolding count_down load_auction store_auction sub_int locked
tick_around-crash client_fd auction_id bid s u w c p b ps i j k x y v free listed here last user
      name found buys first second =
    let (fits, over) = last_tick b.duration last in
    let sells =
      bid_auction-Buys client_fd auction_id bid (racing s p b) u w c p (later b) i j k x y
        (racing-IsValid s p b k v listed here) user name found (write_self s.heap p (later b))
        listed buys first in
    (
      closes-again s p b k v listed here w c bid i j x y first second,
      rw (here, fits, free, sells, over)
          (expire-crash s p b k v listed here w c bid i j x y first second),
    )
