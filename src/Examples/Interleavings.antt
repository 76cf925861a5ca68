-- ===== src/Examples/Interleavings.antt =====
-- Two clients log in at once: one is in `login`, and the other waits for the semaphore of the users.
use zbid.Base.{◌≡◌, refl, [], ◌∷◌, pos, ℤ}
use zbid.Server.{Server}
use zbid.Server.Monad.{stop, blocked, sem_wait, users_mutex}
use zbid.Users.Session.{login}
use zbid.System.{init}
use zbid.System.Threads.{Prog, ret, piece, wait, post, takes, here}
use zbid.System.Threads.Programs.{Call, log_in, thread_of}
use zbid.System.Threads.Deadlock.{Reach, start, begin, move, in_piece, Ready, Any, first}
use zbid.System.Threads.Deadlock.Progress.{Reach-Ready}
use zbid.System.Shutdown.{sigint_handler}
use zbid.System.Threads.Interrupt.{at_end, before, stay, sigint_handler-stuck}
use zbid.Examples.Demo.{str, fresh_user}

-- Alice's login on a descriptor, inside its critical section and before it.
abbrev in_login : ℤ → Prog (Unit {0})
in_login fd =
    piece (login fresh_user fd (str 500 (b'a' ∷ [])) (str 503 (b'x' ∷ [])))
      λ _. post users_mutex (ret tt)

abbrev before_login : ℤ → Prog (Unit {0})
before_login fd = wait users_mutex (in_login fd)

abbrev one_inside : Server
one_inside = record init { users_mutex = 0 }

abbrev logs_in : ℤ → Call
logs_in fd = log_in fd fresh_user (str 500 (b'a' ∷ [])) (str 503 (b'x' ∷ []))

both_began : Reach (before_login (pos 5) ∷ before_login (pos 4) ∷ []) init
unfolding thread_of
both_began = begin (logs_in (pos 5)) (begin (logs_in (pos 4)) start)

one_waits : Reach (in_login (pos 5) ∷ before_login (pos 4) ∷ []) one_inside
unfolding sem_wait init
one_waits = move both_began (here (takes refl))

Reach-Ready_example : Any (Ready one_inside) (in_login (pos 5) ∷ before_login (pos 4) ∷ [])
Reach-Ready_example = Reach-Ready one_waits (first in_piece)

-- SIGINT comes to the thread in `login`; the other thread waits.
sigint_handler-stuck_example : sigint_handler (pos 3) one_inside ≡ stop blocked
sigint_handler-stuck_example = sigint_handler-stuck (pos 3) one_waits (before (pos 0) at_end) stay
