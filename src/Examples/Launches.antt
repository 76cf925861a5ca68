-- ===== src/Examples/Launches.antt =====
-- The server as it is called with -t 5, and with -j, and the clock of its ticker.
use zbid.Base.{◌≡◌, refl, none, some, List, [], ◌∷◌, arith, inl, inr, ℤ, pos, eq_ℤ, fits_int, ◌+ℤ◌}
use zbid.Server.{CString, CharPtr}
use zbid.Server.Monad.{done, stop, null_deref}
use zbid.Jobs.Text.{parse_int}
use zbid.Start.{main}
use zbid.Start.Options.{plain, main-intervals}
use zbid.Ticker.Wait.{tick_by_clock, tick_by_clock-late, TicksOnce, tick_by_clock-TicksOnce}
use zbid.Examples.Demo.{str, demo}

-- "3200" and "a".
abbrev port_arg : CString
port_arg = record { address = 700; text = b'3' ∷ b'2' ∷ b'0' ∷ b'0' ∷ [] }

abbrev file_arg : CString
file_arg = record { address = 710; text = b'a' ∷ [] }

-- server -t 5 3200 a
abbrev arguments : List CharPtr
arguments =
    str 680 (b's' ∷ [])
    ∷ str 690 (b'-' ∷ b't' ∷ [])
    ∷ str 695 (b'5' ∷ [])
    ∷ some port_arg
    ∷ some file_arg
    ∷ []

main-intervals_example :
    (main ((b't', str 695 (b'5' ∷ [])) ∷ []) arguments demo
      ≡ done (inr (plain port_arg file_arg)) demo)
    × (main ((b't', str 695 (b'5' ∷ [])) ∷ (b'j', none) ∷ []) arguments demo ≡ stop null_deref)
unfolding parse_int fits_int eq_ℤ
main-intervals_example =
    main-intervals ((b't', str 695 (b'5' ∷ [])) ∷ []) [] arguments port_arg file_arg demo
      ((refl, (_, refl, refl)), tt) refl refl refl refl

-- The clock is read at 10, 11, 12 and 13, with the last tick at 10.
abbrev readings : List (ℤ × ℤ)
readings = (pos 10, pos 10) ∷ (pos 11, pos 11) ∷ (pos 12, pos 12) ∷ (pos 13, pos 13) ∷ []

tick_by_clock-TicksOnce_example : TicksOnce (pos 2) (pos 10) readings
unfolding ◌+ℤ◌
tick_by_clock-TicksOnce_example =
    tick_by_clock-TicksOnce (pos 2) (pos 10) readings (omega arith)
      (inl refl, (inr refl, (inr refl, (inr refl, tt)))) (inr (inr (inl (omega arith))))

-- The machine slept over the second 12.
tick_by_clock-late_example :
    tick_by_clock (pos 2) (pos 10) ((pos 13, pos 13) ∷ (pos 14, pos 14) ∷ []) demo ≡ done tt demo
unfolding ◌+ℤ◌
tick_by_clock-late_example =
    tick_by_clock-late (pos 2) (pos 10) ((pos 13, pos 13) ∷ (pos 14, pos 14) ∷ []) demo
      (omega arith, (omega arith, tt))
