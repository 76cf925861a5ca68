-- ===== src/System/Threads/Deadlock.antt =====
-- The threads of src/finalsample.c, as they meet events and take their steps.
pub mod Counts
pub mod Ordered
pub mod Progress
use zbid.Base.{
  ◌≡◌, refl, sym, ap, ◌∙◌, subst, ◌⊎◌, inl, inr, Bool, true, false, Option, none, some, List, [],
  ◌∷◌, ℕ, zero, suc, ◌+◌, ◌<◌, ◌≤◌, arith,
}
use mathlib.Core.Option.{some-injective}
use zbid.Server.{Server}
use zbid.Server.Monad.{
  Run, M, Stop, done, stop, Semaphore, users_mutex, auctions_mutex, auction_id_mutex, value,
  set_value, sem_wait, sem_post,
}
use zbid.System.{init}
use zbid.System.Threads.{Prog, ret, piece, wait, post, Step, goes, takes, gives, Moves, here, there}
use zbid.System.Threads.Programs.{Call, thread_of}
use zbid.System.Threads.Quiet.{Quiet, back, ended, SameValues, IsCrash}
use zbid.System.Threads.Locking.{
  Inner, no_other, with_users, with_ids, Holding, idle, taking, giving, Follows,
}
use zbid.System.Threads.Locking.Events.{thread_of-Follows}

-- The threads and the state in a run from the start of the server, in which threads are called.
pub data Reach : List (Prog (Unit {0})) → Server → Type 1 where
  start : Reach [] init
  begin :
      {ps : List (Prog (Unit {0}))} {s : Server} (c : Call)
      → Reach ps s
      → Reach (thread_of c ∷ ps) s
  move : {ps qs : List (Prog (Unit {0}))} {s t : Server} → Reach ps s → Moves ps s qs t → Reach qs t

-- A thread that has not come to its end.
pub data IsActive : Prog (Unit {0}) → Type 1 where
  in_piece : {B : Type 0} {m : M B} {k : B → Prog (Unit {0})} → IsActive (piece m k)
  at_wait : {x : Semaphore} {p : Prog (Unit {0})} → IsActive (wait x p)
  at_post : {x : Semaphore} {p : Prog (Unit {0})} → IsActive (post x p)

-- A thread that does not wait: it has a next step, or its next piece ends the process.
pub data Ready (s : Server) : Prog (Unit {0}) → Type 1 where
  steps : {p q : Prog (Unit {0})} {t : Server} → Step p s q t → Ready s p
  crashes :
      {B : Type 0} {m : M B} {k : B → Prog (Unit {0})} {e : Stop}
      → m s ≡ stop e
      → IsCrash e
      → Ready s (piece m k)

-- One of the threads has a property.
pub data Any (P : Prog (Unit {0}) → Type 1) : List (Prog (Unit {0})) → Type 1 where
  first : {p : Prog (Unit {0})} {ps : List (Prog (Unit {0}))} → P p → Any P (p ∷ ps)
  other : {p : Prog (Unit {0})} {ps : List (Prog (Unit {0}))} → Any P ps → Any P (p ∷ ps)
