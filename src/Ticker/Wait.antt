-- ===== src/Ticker/Wait.antt =====
-- The loop of `run_tick` in src/finalsample.c: what it waits for before each tick.
use zbid.Base.{
  ◌≡◌, refl, true, false, Option, none, some, List, [], ◌∷◌, ◌++◌, arith, inl, inr, ◌⊎◌, Bool-cases,
  ℤ, pos, eq_ℤ, ◌+ℤ◌, ◌-ℤ◌, ◌≤ℤ◌, ◌<ℤ◌, +ℤ_parts, -ℤ_parts, eq_of_parts, ltb_ℤ, All, if◌then◌else◌,
  ap,
}
use zbid.Server.{Server}
use zbid.Server.Monad.{M, done, pure, and_then, ◌>>◌}
use zbid.Ticker.{run_tick}

-- With an interval: each round reads the clock, and once more after a tick. The list has the readings
-- of the rounds that were run.
unfoldable pub tick_by_clock : ℤ → ℤ → List (ℤ × ℤ) → M (Unit {0})
unfolding run_tick
tick_by_clock m previous [] = pure tt
tick_by_clock m previous ((current, after) ∷ rounds) =
    if eq_ℤ (current -ℤ previous) m
    then (do run_tick; tick_by_clock m after rounds)
    else tick_by_clock m previous rounds

-- Without one: each round waits for a line, by the results of `getline`.
unfoldable pub tick_by_line : List ℤ → M (Unit {0})
unfolding run_tick
tick_by_line [] = pure tt
tick_by_line (result ∷ rounds) =
    if eq_ℤ result (pos 0) then tick_by_line rounds else (do run_tick; tick_by_line rounds)

-- The thread, which takes NULL or an interval, and starts at a reading of the clock.
unfoldable pub ticker : Option ℤ → ℤ → List (ℤ × ℤ) → List ℤ → M (Unit {0})
unfolding tick_by_clock tick_by_line
ticker none start rounds lines = tick_by_line lines
ticker (some m) start rounds lines =
    if eq_ℤ m (pos 0) then tick_by_line lines else tick_by_clock m start rounds

late : (m previous current : ℤ) → previous +ℤ m <ℤ current → eq_ℤ (current -ℤ previous) m ≡ false
unfolding eq_ℤ
late m previous current after =
    ground (arith, after, +ℤ_parts previous m, -ℤ_parts current previous)

early : (m previous current : ℤ) → current <ℤ previous +ℤ m → eq_ℤ (current -ℤ previous) m ≡ false
unfolding eq_ℤ
early m previous current before =
    ground (arith, before, +ℤ_parts previous m, -ℤ_parts current previous)

due : (m previous : ℤ) → eq_ℤ (previous +ℤ m -ℤ previous) m ≡ true
unfolding eq_ℤ
due m previous = ground (arith, +ℤ_parts previous m, -ℤ_parts (previous +ℤ m) previous)

-- With an interval: where every round reads the clock later than at the interval after the last
-- tick, no tick comes, however long the thread runs.
pub tick_by_clock-late :
    (m previous : ℤ) (rounds : List (ℤ × ℤ)) (s : Server)
    → All (λ r. previous +ℤ m <ℤ r.0) rounds
    → tick_by_clock m previous rounds s ≡ done tt s
unfolding tick_by_clock
tick_by_clock-late m previous [] s all = refl
tick_by_clock-late m previous ((current, _) ∷ rounds) s (after, all) =
    rw (late m previous current after) (tick_by_clock-late m previous rounds s all)

-- From one reading to the next the clock moves by a second at most.
abbrev pub IsSteady : ℤ → List (ℤ × ℤ) → Type 0
IsSteady last [] = Unit
IsSteady last ((current, _) ∷ rounds) =
    ((current ≡ last) ⊎ (current ≡ last +ℤ pos 1)) × IsSteady current rounds

-- Some round reads the moment or a later one.
abbrev pub Reaches : ℤ → List (ℤ × ℤ) → Type 0
Reaches moment [] = ⊥
Reaches moment ((current, _) ∷ rounds) = (moment ≤ℤ current) ⊎ Reaches moment rounds

-- The first tick comes in a round that reads the moment, and the wait begins anew behind it.
abbrev pub TicksOnce : ℤ → ℤ → List (ℤ × ℤ) → Type 0
TicksOnce m previous rounds =
    (xs : List (ℤ × ℤ)) × (after : ℤ) × (ys : List (ℤ × ℤ)) × (rounds
      ≡ xs ++ (previous +ℤ m, after) ∷ ys)
    × ((s : Server)
        → tick_by_clock m previous rounds s ≡ and_then (run_tick s) (λ _. tick_by_clock m after ys))

at_or_before : (a b : ℤ) → a ≤ℤ b → ((a <ℤ b) ⊎ (a ≡ b))
at_or_before a b le = elim (Bool-cases (ltb_ℤ a b)) [
  | inl less ↦ inl (ground (arith, less))
  | inr not_less ↦ inr (eq_of_parts a b (ground (arith, le, not_less)))
]

not_past :
    (last current moment : ℤ)
    → last <ℤ moment
    → ((current ≡ last) ⊎ (current ≡ last +ℤ pos 1))
    → current ≤ℤ moment
not_past last current moment before (inl same) = rw same (omega (arith, before))
not_past last current moment before (inr next) =
    rw next (omega (arith, before, +ℤ_parts last (pos 1)))

not_yet :
    (moment current after : ℤ) (rounds : List (ℤ × ℤ))
    → current <ℤ moment
    → Reaches moment ((current, after) ∷ rounds)
    → Reaches moment rounds
not_yet moment current after rounds before (inl there) = absurd (omega (arith, before, there))
not_yet moment current after rounds before (inr reaches) = reaches

tick_by_clock-from :
    (m previous last : ℤ) (rounds : List (ℤ × ℤ))
    → last <ℤ previous +ℤ m
    → IsSteady last rounds
    → Reaches (previous +ℤ m) rounds
    → TicksOnce m previous rounds
unfolding tick_by_clock
tick_by_clock-from m previous last [] before steady reaches = absurd reaches
tick_by_clock-from m previous last ((current, after) ∷ rounds) before (moved, steady) reaches =
    elim (at_or_before current (previous +ℤ m)
      (not_past last current (previous +ℤ m) before moved)) [
        | inl less ↦
            let (xs, again, ys, e, run) =
              tick_by_clock-from m previous current rounds less steady
                (not_yet (previous +ℤ m) current after rounds less reaches) in
            (
              (current, after) ∷ xs,
              again,
              ys,
              ap (λ l. (current, after) ∷ l) e,
              λ s. rw (early m previous current less) (run s),
            )
        | inr here ↦ (
          [],
          after,
          rounds,
          ap (λ c. (c, after) ∷ rounds) here,
          λ s. rw (here, due m previous) refl,
        )
      ]

-- With an interval that is above 0: where the clock moves by a second at most from one round to the
-- next and some round reads it at the interval after the last tick or later, a tick comes, in a
-- round that reads exactly that moment, and none comes before.
pub tick_by_clock-TicksOnce :
    (m previous : ℤ) (rounds : List (ℤ × ℤ))
    → pos 0 <ℤ m
    → IsSteady previous rounds
    → Reaches (previous +ℤ m) rounds
    → TicksOnce m previous rounds
tick_by_clock-TicksOnce m previous rounds above steady reaches =
    tick_by_clock-from m previous previous rounds (omega (arith, above, +ℤ_parts previous m)) steady
      reaches
