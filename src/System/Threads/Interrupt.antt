-- ===== src/System/Threads/Interrupt.antt =====
-- `sigint_handler` of src/finalsample.c, in a thread that it interrupts while others go on.
use zbid.Base.{◌≡◌, refl, some, List, [], ◌∷◌, ◌+◌, ◌<◌, ℤ, arith}
use zbid.Server.{Server}
use zbid.Server.Monad.{M, stop, blocked, users_mutex}
use zbid.System.Shutdown.{sigint_handler}
use zbid.System.Threads.{Prog, piece, post, Moves, there}
use zbid.System.Threads.Locking.{no_other, with_users, with_ids, Holding, idle, giving, Follows}
use zbid.System.Threads.Deadlock.{Reach, move}
use zbid.System.Threads.Deadlock.Counts.{holds, held, Fits}
use zbid.System.Threads.Deadlock.Ordered.{Reach-IsOrdered}

-- A thread between `P` and `V` on the semaphore of the users: behind its pieces it gives it back.
pub data IsInside : Prog (Unit {0}) → Type 1 where
  at_end : {p : Prog (Unit {0})} → IsInside (post users_mutex p)
  before :
      {B : Type 0} {m : M B} {k : B → Prog (Unit {0})} (b : B)
      → IsInside (k b)
      → IsInside (piece m k)

-- The other threads go on; one that is called later is one that has not taken a step.
pub data GoOn (ps : List (Prog (Unit {0}))) (s : Server)
    : List (Prog (Unit {0})) → Server → Type 1 where
  stay : GoOn ps s ps s
  step :
      {qs rs : List (Prog (Unit {0}))} {t u : Server}
      → GoOn ps s qs t
      → Moves qs t rs u
      → GoOn ps s rs u

giving-holds : (h e : Holding) → giving users_mutex h ≡ some e → 0 < holds users_mutex h
giving-holds (o, no_other) e gives = cc
giving-holds (o, with_users) e gives = omega arith
giving-holds (o, with_ids) e gives = cc

IsInside-holds :
    {p : Prog (Unit {0})} → IsInside p → (h : Holding) → Follows h p idle → 0 < holds users_mutex h
IsInside-holds at_end h (e, gives, _) = giving-holds h e gives
IsInside-holds (before b inside) h (_, follows) = IsInside-holds inside h (follows b)

interrupted :
    {p : Prog (Unit {0})} {ps : List (Prog (Unit {0}))} {s : Server}
    → Reach (p ∷ ps) s
    → {qs : List (Prog (Unit {0}))} {t : Server} → GoOn ps s qs t
    → Reach (p ∷ qs) t
interrupted r stay = r
interrupted r (step on m) = move (interrupted r on) (there m)

IsInside-taken :
    (p : Prog (Unit {0})) (ps : List (Prog (Unit {0}))) (hs : List Holding) (s : Server)
    → IsInside p
    → Fits (p ∷ ps) hs
    → held users_mutex hs + s.users_mutex ≡ 1
    → s.users_mutex ≡ 0
IsInside-taken p ps [] s inside fits counted = absurd fits
IsInside-taken p ps (h ∷ hs) s inside (follows, _) counted =
    omega (arith, IsInside-holds inside h follows, counted)

sigint_handler-taken :
    (listen_fd : ℤ) (s : Server) → s.users_mutex ≡ 0 → sigint_handler listen_fd s ≡ stop blocked
unfolding sigint_handler
sigint_handler-taken listen_fd s taken = rw taken refl

-- SIGINT interrupts a thread that works on a job, counts a tick or logs a client in, between `P` and
-- `V` on the semaphore of the users, in any interleaving of such threads from the start of the server
-- on: however the others go on meanwhile, the handler, which runs in the interrupted thread, waits
-- for the semaphore.
pub sigint_handler-stuck :
    (listen_fd : ℤ) {p : Prog (Unit {0})} {ps qs : List (Prog (Unit {0}))} {s t : Server}
    → Reach (p ∷ ps) s
    → IsInside p
    → GoOn ps s qs t
    → sigint_handler listen_fd t ≡ stop blocked
sigint_handler-stuck listen_fd {p} {qs} {t} r inside on =
    let o = Reach-IsOrdered (interrupted r on) in
    sigint_handler-taken listen_fd t
      (IsInside-taken p qs o.holdings t inside o.fits (o.counted users_mutex))
