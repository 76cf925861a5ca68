-- ===== src/System/Threads/Locking.antt =====
-- The order in which the threads of src/helpers.c and src/finalsample.c take the semaphores: that of
-- the auctions first, and that of the users or that of the ids last.
pub mod Handlers
pub mod Events
use zbid.Base.{◌≡◌, sym, subst, Bool, true, false, Option, none, some, List, [], ◌∷◌}
use zbid.Server.{Server}
use zbid.Server.Monad.{M, Semaphore, users_mutex, auctions_mutex, auction_id_mutex}
use zbid.System.Threads
use zbid.System.Threads.{Prog, ret, piece, wait, post}
use zbid.System.Threads.Quiet.{Quiet}

-- What a thread holds: the semaphore of the auctions or not, and at most one of the others.
pub data Inner : Type 0 where
  no_other with_users with_ids : Inner

abbrev pub Holding : Type 0
Holding = Bool × Inner

abbrev pub idle : Holding
idle = (false, no_other)

-- What `P` may be called for, and what is held behind it.
abbrev pub taking : Semaphore → Holding → Option Holding
taking users_mutex (o, no_other) = some (o, with_users)
taking auction_id_mutex (o, no_other) = some (o, with_ids)
taking auctions_mutex (false, no_other) = some (true, no_other)
taking _ _ = none

abbrev pub giving : Semaphore → Holding → Option Holding
giving users_mutex (o, with_users) = some (o, no_other)
giving auction_id_mutex (o, with_ids) = some (o, no_other)
giving auctions_mutex (true, no_other) = some (false, no_other)
giving _ _ = none

-- A program that begins with one holding and ends with the other takes and gives back in the order,
-- and its pieces leave the semaphores alone.
abbrev pub Follows : {A : Type 0} → Holding → Prog A → Holding → Type 0
Follows h (ret a) g = h ≡ g
Follows h (piece m k) g = ((s : Server) → Quiet s (m s)) × ((b : _) → Follows h (k b) g)
Follows h (wait x p) g = (e : Holding) × (taking x h ≡ some e) × Follows e p g
Follows h (post x p) g = (e : Holding) × (giving x h ≡ some e) × Follows e p g

pub Follows-bind :
    {A B : Type 0} (p : Prog A) (k : A → Prog B) (h g e : Holding)
    → Follows h p g
    → ((a : A) → Follows g (k a) e)
    → Follows h (Threads.◌>>=◌ p k) e
Follows-bind (ret a) k h g e same next = subst (λ x. Follows x (k a) e) (sym same) (next a)
Follows-bind (piece m f) k h g e (quiet, rest) next =
    (quiet, λ b. Follows-bind (f b) k h g e (rest b) next)
Follows-bind (wait x p) k h g e (d, takes, rest) next = (d, takes, Follows-bind p k d g e rest next)
Follows-bind (post x p) k h g e (d, gives, rest) next = (d, gives, Follows-bind p k d g e rest next)
