-- ===== src/Examples/Invariants.antt =====
-- The theorems on the invariant, at the demo.
use zbid.Base.{true, ◌≡◌, refl, none, some, [], ◌∷◌, pos, str_eq, eq_ℤ, fits_int, ◌-ℤ◌}
use zbid.Server.Monad.{done, stop, null_deref, strcmp}
use zbid.Users.Find.{find_username, find_user_position}
use zbid.Server.{CString}
use zbid.Auctions.Watch.{leave_auction}
use zbid.Auctions.Find.{find_auction}
use zbid.Invariant.Watching.{leave_auction-crash}
use zbid.Examples.Demo.{alice, lamp, demo, demo-IsValid}

abbrev lamp_name : CString
lamp_name = record { address = 30; text = b'l' ∷ [] }

alice_at : find_username (pos 4) demo.users ≡ some 0
unfolding find_username eq_ℤ
alice_at = refl

lamp_found : find_auction (pos 1) demo.auctions demo ≡ done (some 100) demo
unfolding find_auction eq_ℤ
lamp_found = refl

one_watcher_less : fits_int (lamp.number_of_watchers -ℤ pos 1) ≡ true
unfolding fits_int ◌-ℤ◌
one_watcher_less = refl

alice_not_watching : find_user_position alice.username lamp.watchers ≡ some none
unfolding find_user_position strcmp str_eq
alice_not_watching = refl

leave_auction-crash_example : leave_auction (pos 4) (pos 1) demo ≡ stop null_deref
leave_auction-crash_example =
    leave_auction-crash (pos 4) (pos 1) 0 alice demo demo-IsValid alice_at refl 100 lamp lamp_found
      refl one_watcher_less alice_not_watching
