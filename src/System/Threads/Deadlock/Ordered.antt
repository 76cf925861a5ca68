-- ===== src/System/Threads/Deadlock/Ordered.antt =====
-- Every step of a thread of src/finalsample.c keeps the order of the semaphores.
use zbid.Base.{◌≡◌, refl, ap, subst, List, [], ◌∷◌, ℕ, zero, suc, ◌+◌, arith}
use zbid.Server.{Server}
use zbid.Server.Monad.{
  blocked, Run, done, stop, Semaphore, users_mutex, auctions_mutex, auction_id_mutex, value,
  set_value, sem_wait, sem_post,
}
use zbid.System.{init}
use zbid.System.Threads.{Prog, Step, goes, takes, gives, Moves, here, there}
use zbid.System.Threads.Quiet.{Quiet, back, SameValues}
use zbid.System.Threads.Locking.{Holding, idle, Follows}
use zbid.System.Threads.Locking.Events.{thread_of-Follows}
use zbid.System.Threads.Deadlock.{Reach, start, begin, move}
use zbid.System.Threads.Deadlock.Counts.{
  holds, held, Fits, IsOrdered, same, value-set, value-give, taking-More, giving-More,
}

-- `P` that returns has found a value above 0.
abbrev Taken : Semaphore → Server → Server → Type 0
Taken x s t = (n : ℕ) × (value x s ≡ suc n) × (t ≡ set_value x n s)

sem_wait-Taken : (x : Semaphore) (s t : Server) → sem_wait x s ≡ done tt t → Taken x s t
unfolding sem_wait
sem_wait-Taken x s t e = go (value x s) refl e
  where
    go :
        (v : ℕ)
        → value x s ≡ v
        → (let r : Run (Unit {0}) = elim v [
          | zero ↦ stop blocked
          | suc n ↦ done tt (set_value x n s)
        ] in
            r)
          ≡ done tt t
        → Taken x s t
    go zero was e = cc
    go (suc n) was e = (n, was, cc)

pub sem_wait-one :
    (x : Semaphore) (s : Server) → value x s ≡ 1 → sem_wait x s ≡ done tt (set_value x 0 s)
unfolding sem_wait
sem_wait-one x s one = rw (one, sem_wait) refl

Quiet-done : {A : Type 0} {s t : Server} {a : A} → Quiet s (done a t) → SameValues s t
Quiet-done (back v) = v

value-SameValues : {s t : Server} → SameValues s t → (x : Semaphore) → value x t ≡ value x s
value-SameValues v users_mutex = v.users
value-SameValues v auctions_mutex = v.auctions
value-SameValues v auction_id_mutex = v.ids

-- What a step leaves: a thread that follows the order, with as much held and free as before.
abbrev FollowsOn : Prog (Unit {0}) → Server → Server → Holding → Type 0
FollowsOn q s t h =
    (g : Holding) × Follows g q idle
    × ((y : Semaphore) → holds y g + value y t ≡ holds y h + value y s)

sem_post-Given :
    (x : Semaphore) (s t : Server)
    → sem_post x s ≡ done tt t
    → (y : Semaphore) → value y t ≡ value y s + same x y
unfolding sem_post
sem_post-Given x s t e y =
    let after : set_value x (suc (value x s)) s ≡ t = (cc) in
    subst (λ q. value y q ≡ value y s + same x y) after (value-give x y s)

Step-Follows :
    {p q : Prog (Unit {0})} {s t : Server} (h : Holding)
    → Step p s q t
    → Follows h p idle
    → FollowsOn q s t h
Step-Follows {s} {t} h (goes {b} e) (quiet, rest) =
    let v = Quiet-done (subst (Quiet s) e (quiet s)) in
    (h, rest b, λ y. ap (λ n. holds y h + n) (value-SameValues v y))
Step-Follows {s} {t} h (takes {x} e) (g, taken, rest) =
    let (n, was, next) = sem_wait-Taken x s t e in
    (g, rest, λ y. rw next (omega (arith, taking-More x h g taken y, value-set x y n s was)))
Step-Follows {s} {t} h (gives {x} e) (g, given, rest) =
    (g, rest, λ y. omega (arith, giving-More x h g given y, sem_post-Given x s t e y))

Moves-Fits :
    {ps qs : List (Prog (Unit {0}))} {s t : Server} (hs : List Holding)
    → Moves ps s qs t
    → Fits ps hs
    → (gs : List Holding) × Fits qs gs
      × ((y : Semaphore) → held y gs + value y t ≡ held y hs + value y s)
Moves-Fits [] (here e) fits = absurd fits
Moves-Fits [] (there m) fits = absurd fits
Moves-Fits (h ∷ hs) (here e) (follows, fits) =
    let (g, on, counted) = Step-Follows h e follows in
    (g ∷ hs, (on, fits), λ y. omega (arith, counted y))
Moves-Fits (h ∷ hs) (there m) (follows, fits) =
    let (gs, on, counted) = Moves-Fits hs m fits in
    (h ∷ gs, (follows, on), λ y. omega (arith, counted y))

init-free : (x : Semaphore) → 0 + value x init ≡ 1
unfolding init
init-free users_mutex = refl
init-free auctions_mutex = refl
init-free auction_id_mutex = refl

idle-free : (y : Semaphore) → holds y idle ≡ 0
idle-free users_mutex = refl
idle-free auctions_mutex = refl
idle-free auction_id_mutex = refl

pub Reach-IsOrdered : {ps : List (Prog (Unit {0}))} {s : Server} → Reach ps s → IsOrdered ps s
Reach-IsOrdered start = record { holdings = []; fits = tt; counted = init-free }
Reach-IsOrdered (begin e r) =
    let o = Reach-IsOrdered r in
    record {
      holdings = idle ∷ o.holdings;
      fits = (thread_of-Follows e, o.fits);
      counted = λ x. omega (arith, idle-free x, o.counted x);
    }
Reach-IsOrdered (move r m) =
    let o = Reach-IsOrdered r in
    let (gs, fits, same_count) = Moves-Fits o.holdings m o.fits in
    record { holdings = gs; fits = fits; counted = λ x. omega (arith, same_count x, o.counted x) }
