-- ===== src/Examples/Runs.antt =====
-- What the handlers do on the demo.
use zbid.Base.{
  ◌≡◌, refl, none, some, [], ◌∷◌, map, ℤ, pos, negsuc, Option, List, str_eq, eq_ℤ, fits_int, ◌+ℤ◌,
  ◌-ℤ◌,
}
use zbid.Server.{write}
use zbid.Server.Protocol.{MsgType}
use zbid.Server.Print.{print_int}
use zbid.Server.Monad.{Run, done, stop, null_deref, strcmp}
use zbid.Auctions.Bid.{bid_auction}
use zbid.Auctions.Watch.{leave_auction}
use zbid.Ticker.{run_tick}
use zbid.Examples.Demo.{demo}

-- The balances and the answers' receivers and types after a run that returned.
abbrev outcome : Run (Unit {0}) → Option (List ℤ × List (ℤ × MsgType))
outcome (done _ s) = some (map (λ u. u.balance) s.users, map (λ m. (m.fd, m.msg_type)) s.sent)
outcome (stop _) = none

-- Bob buys the lamp for 150, and only its watcher is told.
buy_lamp :
    outcome (bid_auction (pos 5) (pos 1) (pos 150) demo)
    ≡ some (pos 150 ∷ negsuc 149 ∷ [], (pos 5, MsgType.anclosed) ∷ [])
unfolding bid_auction strcmp str_eq eq_ℤ fits_int ◌+ℤ◌ ◌-ℤ◌ write print_int
buy_lamp = refl

-- Alice, who does not watch her own auction, leaves it.
leave_unwatched : leave_auction (pos 4) (pos 1) demo ≡ stop null_deref
unfolding leave_auction strcmp str_eq eq_ℤ fits_int ◌+ℤ◌ ◌-ℤ◌ write
leave_unwatched = refl

-- The time of the lamp is over: nobody has bid.
tick_demo : outcome (run_tick demo) ≡ some (pos 0 ∷ pos 0 ∷ [], (pos 5, MsgType.anclosed) ∷ [])
unfolding run_tick strcmp str_eq eq_ℤ fits_int ◌+ℤ◌ ◌-ℤ◌ write print_int
tick_demo = refl
