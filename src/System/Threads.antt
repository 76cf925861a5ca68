-- ===== src/System/Threads.antt =====
-- Threads of the server whose steps interleave: each call of a semaphore function is a step of its
-- own, and so is each piece of a handler between two of them.
pub mod Pieces
pub mod Programs
pub mod Locking
pub mod Deadlock
pub mod Interrupt
pub mod Alone
pub mod Quiet
use zbid.Base.{◌≡◌, List, ◌∷◌}
use zbid.Server.{Server}
use zbid.Server.Monad
use zbid.Server.Monad.{M, done, pure, Semaphore, sem_wait, sem_post}

-- What a thread still has to do: nothing, a piece that calls no semaphore function and what follows
-- its result, or `P` or `V` and what follows.
pub data Prog (A : Type 0) : Type 1 where
  ret : A → Prog A
  piece : {B : Type 0} → M B → (B → Prog A) → Prog A
  wait post : Semaphore → Prog A → Prog A

infixl 5 ◌>>=◌ ◌>>◌
abbrev pub ◌>>=◌ : {A B : Type 0} → Prog A → (A → Prog B) → Prog B
ret a >>= f = f a
piece m k >>= f = piece m (λ b. k b >>= f)
wait x p >>= f = wait x (p >>= f)
post x p >>= f = post x (p >>= f)

abbrev pub ◌>>◌ : {A B : Type 0} → Prog A → Prog B → Prog B
p >> q = p >>= λ _. q

abbrev pub do_piece : {A : Type 0} → M A → Prog A
do_piece m = piece m ret

abbrev pub sem_P : Semaphore → Prog (Unit {0})
sem_P x = wait x (ret tt)

abbrev pub sem_V : Semaphore → Prog (Unit {0})
sem_V x = post x (ret tt)

-- A thread alone, from its start to its end.
unfoldable pub run : {A : Type 0} → Prog A → M A
run (ret a) = pure a
run (piece m k) = Monad.◌>>=◌ m (λ b. run (k b))
run (wait x p) = Monad.◌>>◌ (sem_wait x) (run p)
run (post x p) = Monad.◌>>◌ (sem_post x) (run p)

-- One step of a thread.
pub data Step {A : Type 0} : Prog A → Server → Prog A → Server → Type 1 where
  goes :
      {B : Type 0} {m : M B} {k : B → Prog A} {s t : Server} {b : B}
      → m s ≡ done b t
      → Step (piece m k) s (k b) t
  takes :
      {x : Semaphore} {p : Prog A} {s t : Server} → sem_wait x s ≡ done tt t → Step (wait x p) s p t
  gives :
      {x : Semaphore} {p : Prog A} {s t : Server} → sem_post x s ≡ done tt t → Step (post x p) s p t

-- One of the threads takes a step.
pub data Moves {A : Type 0} : List (Prog A) → Server → List (Prog A) → Server → Type 1 where
  here :
      {p q : Prog A} {ps : List (Prog A)} {s t : Server}
      → Step p s q t
      → Moves (p ∷ ps) s (q ∷ ps) t
  there :
      {p : Prog A} {ps qs : List (Prog A)} {s t : Server}
      → Moves ps s qs t
      → Moves (p ∷ ps) s (p ∷ qs) t
