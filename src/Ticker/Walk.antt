-- ===== src/Ticker/Walk.antt =====
-- How far the walk of `run_tick` in src/finalsample.c goes, and what it does on the way.
use zbid.Base.{
  ◌≡◌, refl, ◌∙◌, ap, true, false, some, List, [], ◌∷◌, ◌++◌, append-nil, pos, eq_ℤ, fits_int, ◌-ℤ◌,
  ◌+ℤ◌, sym,
}
use zbid.Server.{Address, Heap, Auction, Server, write}
use zbid.Server.Monad.{done, add_int, sub_int, load_auction, store_auction}
use zbid.Ticker.{count_down, expire, tick_auctions, run_tick}

-- The auction with one tick less.
abbrev pub later : Auction → Auction
later a = record a { duration = a.duration -ℤ pos 1 }

-- One step of the clock is in the range of `int`, and leaves time.
abbrev pub HasTime : Auction → Type 0
HasTime a = (fits_int (a.duration -ℤ pos 1) ≡ true) × (eq_ℤ (a.duration -ℤ pos 1) (pos 0) ≡ false)

-- From the first heap to the second, the auctions at the addresses lose one tick each, in order,
-- and none of them ends.
pub data Counted : Heap → List Address → Heap → Type 0 where
  none_counted : {h : Heap} → Counted h [] h
  one_counted :
      {h g : Heap} {p : Address} {ps : List Address} {a : Auction}
      → h p ≡ some a
      → HasTime a
      → Counted (write h p (later a)) ps g
      → Counted h (p ∷ ps) g

tick_auctions-Counted :
    (s : Server) (xs ps : List Address) {h g : Heap}
    → Counted h xs g
    → tick_auctions (xs ++ ps) (record s { heap = h }) ≡ tick_auctions ps (record s { heap = g })
unfolding tick_auctions count_down load_auction store_auction sub_int
tick_auctions-Counted s [] ps none_counted = refl
tick_auctions-Counted s (x ∷ xs) ps (one_counted here (fits, time) c) =
    rw (here, fits, time) (tick_auctions-Counted s xs ps c)

-- A tick in which every listed auction has more than one tick left, or none, and no `int` leaves its
-- range takes one tick from each of them, in order, and changes nothing else but the clock.
run_tick-Counted :
    (s : Server) (g : Heap)
    → fits_int (s.tick +ℤ pos 1) ≡ true
    → Counted s.heap s.auctions g
    → run_tick s ≡ done tt (record s { tick = s.tick +ℤ pos 1; heap = g })
unfolding run_tick add_int tick_auctions
run_tick-Counted s g fits c = rw fits (
    ap (λ ps. tick_auctions ps (record s { tick = s.tick +ℤ pos 1 })) (sym (append-nil s.auctions))
    ∙ tick_auctions-Counted (record s { tick = s.tick +ℤ pos 1 }) s.auctions [] c)

-- Where no listed auction before one with a single tick left ends and no `int` leaves its range, the
-- tick takes one tick from each of those and ends that one. Those behind it are not walked to:
-- whatever they are, the tick is the same, and they lose no time.
pub run_tick-ends :
    (s : Server) (xs ys : List Address) (p : Address) (a : Auction) (g : Heap)
    → fits_int (s.tick +ℤ pos 1) ≡ true
    → s.auctions ≡ xs ++ p ∷ ys
    → Counted s.heap xs g
    → g p ≡ some a
    → a.duration ≡ pos 1
    → run_tick s ≡ expire p (record s { tick = s.tick +ℤ pos 1; heap = write g p (later a) })
unfolding run_tick add_int tick_auctions count_down load_auction store_auction sub_int ◌-ℤ◌ eq_ℤ
    fits_int
run_tick-ends s xs ys p a g fits listed c at last = rw fits (
    ap (λ ps. tick_auctions ps (record s { tick = s.tick +ℤ pos 1 })) listed
    ∙ tick_auctions-Counted (record s { tick = s.tick +ℤ pos 1 }) xs (p ∷ ys) c
    ∙ rw (at, last) refl)
