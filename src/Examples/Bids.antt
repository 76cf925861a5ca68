-- ===== src/Examples/Bids.antt =====
-- What bids, ticks and the listing come to, at the demo.
use zbid.Base.{
  ◌≡◌, refl, ap, ◌∙◌, subst, arith, ◌≤◌, true, none, some, [], ◌∷◌, ◌++◌, pos, str_eq, eq_ℤ,
  fits_int, ◌-ℤ◌, ◌+ℤ◌, Text, leb, length, ◌+◌, ◌==◌, if◌then◌else◌,
}
use zbid.Server.{CString, Auction, Server, write}
use zbid.Server.Protocol.{MsgType}
use zbid.Server.Print.{print_int}
use zbid.Server.Monad.{done, reply}
use zbid.Users.Find.{client_user, find_username}
use zbid.Auctions.Find.{find_auction}
use zbid.Auctions.Bid.{bid_auction, same_pointer}
use zbid.Auctions.Bid.Outcome.{own_auction, Leads, bid_auction-Refused}
use zbid.Auctions.Bid.Leading.{told, leading, answer, update_text, bid_auction-Leads}
use zbid.Ticker.{run_tick, expire}
use zbid.Ticker.Walk.{later, Counted, none_counted, one_counted, run_tick-ends}
use zbid.Reports.Listing.{list_auctions}
use zbid.Reports.Lines.{Lines}
use mathlib.Core.Option.{some-injective}
use zbid.Reports.Lines.Bounds.{IsNamedWithin}
use zbid.Invariant.Listing.{list_auctions-fits}
use zbid.Examples.Demo.{alice, bob, lamp, demo, demo-IsValid}

abbrev alice_name : CString
alice_name = record { address = 10; text = b'a' ∷ [] }

abbrev bob_name : CString
bob_name = record { address = 20; text = b'b' ∷ [] }

abbrev lamp_text : CString
lamp_text = record { address = 30; text = b'l' ∷ [] }

user_alice : client_user (pos 4) demo ≡ done alice demo
unfolding client_user find_username eq_ℤ
user_alice = refl

user_bob : client_user (pos 5) demo ≡ done bob demo
unfolding client_user find_username eq_ℤ
user_bob = refl

lamp_listed : find_auction (pos 1) demo.auctions demo ≡ done (some 100) demo
unfolding find_auction eq_ℤ
lamp_listed = refl

alice_created : same_pointer lamp.creator (some alice_name) ≡ true
unfolding same_pointer
alice_created = refl

bid_auction-Refused_example :
    bid_auction (pos 4) (pos 1) (pos 50) demo ≡ reply (pos 4) MsgType.eandenied demo
bid_auction-Refused_example =
    bid_auction-Refused (pos 4) (pos 1) (pos 50) demo alice alice_name 100 lamp demo-IsValid
      user_alice refl lamp_listed refl (own_auction alice_created)

bob-Leads : Leads bob_name (pos 50) lamp
unfolding same_pointer str_eq
bob-Leads = record { others = refl; watching = refl; not_bought = refl; higher = refl }

update_fits :
    leb (length (update_text (leading lamp bob_name (pos 50)) lamp_text bob_name) + 1) 1024 ≡ true
unfolding print_int
update_fits = refl

bid_auction-Leads_example :
    bid_auction (pos 5) (pos 1) (pos 50) demo
    ≡ done tt (record demo {
      heap = write demo.heap 100 (leading lamp bob_name (pos 50));
      sent =
          told demo.users
            (update_text (leading lamp bob_name (pos 50)) lamp_text bob_name)
            lamp.watchers
          ++ answer (pos 5) MsgType.ok ∷ [];
    })
bid_auction-Leads_example =
    bid_auction-Leads (pos 5) (pos 1) (pos 50) demo bob lamp_text bob_name 100 lamp demo-IsValid
      user_bob refl lamp_listed refl refl bob-Leads update_fits

-- A chair with two ticks left.
abbrev chair : Auction
chair = record lamp { id = pos 2; duration = pos 2 }

tick_fits : fits_int (demo.tick +ℤ pos 1) ≡ true
unfolding fits_int ◌+ℤ◌
tick_fits = refl

run_tick-ends_example :
    run_tick demo
    ≡ expire 100
        (record demo { tick = demo.tick +ℤ pos 1; heap = write demo.heap 100 (later lamp) })
run_tick-ends_example =
    run_tick-ends demo [] [] 100 lamp demo.heap tick_fits refl none_counted refl refl

-- With the chair alone, no auction ends.
abbrev waiting : Server
waiting = record demo { heap = λ p. if p == 100 then some chair else none }

chair-Counted : Counted waiting.heap (100 ∷ []) (write waiting.heap 100 (later chair))
unfolding fits_int ◌-ℤ◌ eq_ℤ
chair-Counted = one_counted {a = chair} refl (refl, refl) none_counted

lamp-IsNamedWithin : IsNamedWithin demo.heap 1 100
lamp-IsNamedWithin a n at named =
    let same : lamp ≡ a = some-injective lamp a at in
    let named' : lamp_text ≡ n = some-injective lamp_text n (ap (λ b. b.name) same ∙ named) in
    subst (λ c. length c.text ≤ 1) named' (omega arith)

list_auctions-fits_example :
    (text : Text) × Lines demo.heap (100 ∷ []) text
    × (list_auctions (pos 5) demo
        ≡ done tt (record demo {
          sent =
              (record {
                fd = pos 5;
                msg_type = MsgType.anlist;
                msg_len = length text + 1;
                msgbuf = text;
              })
              ∷ [];
        }))
list_auctions-fits_example =
    list_auctions-fits (pos 5) 1 demo 100 [] demo-IsValid refl (lamp-IsNamedWithin, tt)
      (omega arith)
