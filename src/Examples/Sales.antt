-- ===== src/Examples/Sales.antt =====
-- A bid that buys the lamp of the demo.
use zbid.Base.{◌≡◌, refl, some, [], ◌∷◌, pos, str_eq, fits_int, ◌-ℤ◌, ◌+ℤ◌, eq_ℤ, arith}
use zbid.LinkedList.Contents.{remove_nth}
use zbid.Server.{CString, Auction, Server, write}
use zbid.Server.Print.{print_int}
use zbid.Server.Monad.{done, stop, null_deref, strcmp}
use zbid.Users.Find.{client_user, find_user_struct, find_username}
use zbid.Auctions.Find.{find_auction}
use zbid.Auctions.Close.{close_auction}
use zbid.Auctions.Close.Sold.{Sale, charged, credited}
use zbid.Ticker.Walk.{later}
use zbid.System.Race.{racing, bought, closed_again, tick_around, tick_around-crash}
use zbid.Auctions.Bid.{same_pointer, bid_auction}
use zbid.Auctions.Bid.Leading.{leading}
use zbid.Auctions.Bid.Buying.{Buys, sold, after_sale, bid_auction-Buys}
use zbid.Examples.Demo.{alice, bob, lamp, demo, demo-IsValid}

abbrev alice_name : CString
alice_name = record { address = 10; text = b'a' ∷ [] }

abbrev bob_name : CString
bob_name = record { address = 20; text = b'b' ∷ [] }

lamp-Buys : Buys bob_name (pos 150) lamp
unfolding same_pointer str_eq
lamp-Buys = record { others = refl; watching = refl; bought = refl }

lamp-Sale :
    Sale
      (sold demo 100 (leading lamp bob_name (pos 150)))
      100
      (leading lamp bob_name (pos 150))
      bob_name
      alice_name
      1
      0
      bob
      alice
unfolding find_user_struct strcmp str_eq fits_int print_int ◌-ℤ◌ ◌+ℤ◌
lamp-Sale = record {
  won = refl;
  made = refl;
  winner = refl;
  creator = refl;
  winner_at = refl;
  creator_at = refl;
  apart = λ e. omega (arith, e);
  pays = refl;
  earns = refl;
  short = refl;
}

bob_bids : client_user (pos 5) demo ≡ done bob demo
unfolding client_user find_username eq_ℤ
bob_bids = refl

lamp_for_sale : find_auction (pos 1) demo.auctions demo ≡ done (some 100) demo
unfolding find_auction eq_ℤ
lamp_for_sale = refl

bid_auction-Buys_example :
    bid_auction (pos 5) (pos 1) (pos 150) demo
    ≡ done tt
        (record (after_sale demo 100 (leading lamp bob_name (pos 150)) bob_name 1 0 bob alice) {
          auctions = remove_nth demo.auctions 0;
        })
bid_auction-Buys_example =
    bid_auction-Buys (pos 5) (pos 1) (pos 150) demo bob bob_name alice_name 100 lamp 1 0 0 bob alice
      demo-IsValid bob_bids refl lamp_for_sale refl refl lamp-Buys lamp-Sale

bob_races : client_user (pos 5) (racing demo 100 lamp) ≡ done bob (racing demo 100 lamp)
unfolding client_user find_username eq_ℤ
bob_races = refl

lamp_raced :
    find_auction (pos 1) demo.auctions (racing demo 100 lamp)
    ≡ done (some 100) (racing demo 100 lamp)
unfolding find_auction eq_ℤ write
lamp_raced = refl

-- The lamp with no tick left, and the bid.
abbrev raced_lamp : Auction
raced_lamp = leading (later lamp) bob_name (pos 150)

raced-Buys : Buys bob_name (pos 150) (later lamp)
unfolding same_pointer str_eq
raced-Buys = record { others = refl; watching = refl; bought = refl }

first-Sale :
    Sale
      (sold (racing demo 100 lamp) 100 raced_lamp)
      100
      raced_lamp
      bob_name
      alice_name
      1
      0
      bob
      alice
unfolding find_user_struct strcmp str_eq fits_int print_int ◌-ℤ◌ ◌+ℤ◌
first-Sale = record {
  won = refl;
  made = refl;
  winner = refl;
  creator = refl;
  winner_at = refl;
  creator_at = refl;
  apart = λ e. omega (arith, e);
  pays = refl;
  earns = refl;
  short = refl;
}

abbrev after_bid : Server
after_bid = bought (racing demo 100 lamp) 100 raced_lamp bob_name 1 0 0 bob alice

second-Sale :
    Sale after_bid 100 raced_lamp bob_name alice_name 1 0
      (charged bob 100 (pos 150))
      (credited alice (pos 150))
unfolding find_user_struct strcmp str_eq fits_int print_int ◌-ℤ◌ ◌+ℤ◌
second-Sale = record {
  won = refl;
  made = refl;
  winner = refl;
  creator = refl;
  winner_at = refl;
  creator_at = refl;
  apart = λ e. omega (arith, e);
  pays = refl;
  earns = refl;
  short = refl;
}

tick_around-crash_example :
    (close_auction 100 after_bid
      ≡ done tt (closed_again after_bid 100 raced_lamp bob_name 1 0 bob alice))
    × (tick_around (bid_auction (pos 5) (pos 1) (pos 150)) 100 [] demo ≡ stop null_deref)
tick_around-crash_example =
    tick_around-crash (pos 5) (pos 1) (pos 150) demo bob bob_name alice_name 100 lamp [] 1 0 0 bob
      alice demo-IsValid refl refl refl refl bob_races refl lamp_raced raced-Buys first-Sale
      second-Sale
