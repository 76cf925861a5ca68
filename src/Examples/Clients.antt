-- ===== src/Examples/Clients.antt =====
-- What clients do with auctions and descriptors, at the demo.
use zbid.Base.{
  ◌≡◌, refl, true, false, some, none, [], ◌∷◌, ◌++◌, ◌+ℤ◌, pos, str_eq, eq_ℤ, fits_int, leb, length,
  ◌+◌,
}
use zbid.Server.{CString, write}
use zbid.Server.Protocol.{MsgType}
use zbid.Server.Print.{print_int, crlf}
use zbid.Server.Monad.{done, strcmp, ◌>>◌}
use zbid.Users.Find.{find_user_position, find_username}
use zbid.Auctions.Create.{create_auction}
use zbid.Auctions.Create.Created.{
  IsCreatable, offered, owner, created_message, create_auction-Created,
}
use zbid.Auctions.Watch.{watch_auction, leave_auction}
use zbid.Auctions.Bid.Leading.{answer}
use zbid.Invariant.Watching.Back.{welcome, watch_auction-leave_auction}
use zbid.Examples.Demo.{alice, bob, lamp, fresh_auction, demo, demo-IsValid}

abbrev alice_name : CString
alice_name = record { address = 10; text = b'a' ∷ [] }

abbrev lamp_text : CString
lamp_text = record { address = 30; text = b'l' ∷ [] }

abbrev desk_text : CString
desk_text = record { address = 40; text = b'd' ∷ [] }

alice_at : find_username (pos 4) demo.users ≡ some 0
unfolding find_username eq_ℤ
alice_at = refl

one_watcher : fits_int lamp.number_of_watchers ≡ true
unfolding fits_int
one_watcher = refl

two_watchers : fits_int (lamp.number_of_watchers +ℤ pos 1) ≡ true
unfolding fits_int ◌+ℤ◌
two_watchers = refl

welcome_fits : leb (length (lamp_text.text ++ crlf ++ print_int lamp.bin_price) + 1) 1024 ≡ true
unfolding print_int
welcome_fits = refl

alice_apart : find_user_position (some alice_name) lamp.watchers ≡ some none
unfolding find_user_position strcmp str_eq
alice_apart = refl

watch_auction-leave_auction_example :
    (do watch_auction (pos 4) (pos 1); leave_auction (pos 4) (pos 1)) demo
    ≡ done tt
        (record demo { sent = welcome (pos 4) lamp_text lamp ∷ answer (pos 4) MsgType.ok ∷ [] })
watch_auction-leave_auction_example =
    watch_auction-leave_auction (pos 4) 0 0 alice alice_name lamp_text 100 lamp demo demo-IsValid
      alice_at refl refl refl refl refl one_watcher two_watchers welcome_fits alice_apart

desk-IsCreatable : IsCreatable desk_text (pos 3) (pos 0)
unfolding str_eq
desk-IsCreatable = record { called = refl; lasting = refl; priced = refl }

not_alice : eq_ℤ alice.fd (pos 5) ≡ false
unfolding eq_ℤ
not_alice = refl

is_bob : eq_ℤ bob.fd (pos 5) ≡ true
unfolding eq_ℤ
is_bob = refl

next_fits : fits_int (demo.auction_id +ℤ pos 1) ≡ true
unfolding fits_int ◌+ℤ◌
next_fits = refl

create_auction-Created_example :
    create_auction 200 fresh_auction (pos 5) (some desk_text) (pos 3) (pos 0) demo
    ≡ done tt (record demo {
      users = alice ∷ owner bob 200 ∷ [];
      auctions = 100 ∷ 200 ∷ [];
      heap = write demo.heap 200 (
          offered
            (demo.auction_id +ℤ pos 1)
            (some desk_text)
            (pos 3)
            (pos 0)
            bob.username
            (fresh_auction.number_of_watchers));
      auction_id = demo.auction_id +ℤ pos 1;
      sent = created_message (pos 5) (demo.auction_id +ℤ pos 1) ∷ [];
    })
create_auction-Created_example =
    create_auction-Created 200 fresh_auction (pos 5) desk_text (pos 3) (pos 0) (alice ∷ []) bob []
      demo refl (not_alice, tt) is_bob tt refl desk-IsCreatable next_fits
