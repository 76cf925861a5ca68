-- ===== src/System/Threads/Deadlock/Progress.antt =====
-- The threads of src/finalsample.c never wait for one another in a circle.
use zbid.Base.{◌≡◌, refl, subst, inl, inr, true, false, some, List, [], ◌∷◌, ◌<◌, arith}
use zbid.Server.{Server}
use zbid.Server.Monad.{
  Run, M, done, stop, Semaphore, users_mutex, auctions_mutex, auction_id_mutex, value, sem_post,
}
use zbid.System.Threads.{Prog, ret, piece, wait, post, goes, takes, gives}
use zbid.System.Threads.Quiet.{Quiet, ended}
use zbid.System.Threads.Locking.{no_other, with_users, with_ids, Holding, idle, taking, Follows}
use zbid.Jobs.Buffer.Threads.Shared.{zero-or-suc}
use zbid.System.Threads.Deadlock.{
  Reach, IsActive, in_piece, at_wait, at_post, Ready, steps, crashes, Any, first, other,
}
use zbid.System.Threads.Deadlock.Counts.{holds, held, Fits}
use zbid.System.Threads.Deadlock.Ordered.{sem_wait-one, Reach-IsOrdered}

-- What a thread may take is free.
abbrev MayTake : Server → Holding → Type 0
MayTake s h = (x : Semaphore) (g : Holding) → taking x h ≡ some g → value x s ≡ 1

piece-Ready :
    {B : Type 0} (m : M B) (k : B → Prog (Unit {0})) (s : Server)
    → Quiet s (m s)
    → Ready s (piece m k)
piece-Ready m k s quiet = go (m s) refl quiet
  where
    go : (r : Run _) → m s ≡ r → Quiet s r → Ready s (piece m k)
    go (done b t) e q = steps (goes e)
    go (stop x) e (ended c) = crashes e c

active-Ready :
    (s : Server) (h : Holding) (p : Prog (Unit {0}))
    → Follows h p idle
    → MayTake s h
    → IsActive p
    → Ready s p
unfolding sem_post
active-Ready s h (ret a) e free a_thread = elim a_thread [ ]
active-Ready s h (piece m k) (quiet, rest) free in_piece = piece-Ready m k s (quiet s)
active-Ready s h (wait x p) (g, taken, rest) free at_wait =
    steps (takes (sem_wait-one x s (free x g taken)))
active-Ready s h (post x p) (g, given, rest) free at_post = steps (gives refl)

-- A thread that holds something has not come to its end.
held-IsActive :
    (x : Semaphore) (h : Holding) (p : Prog (Unit {0}))
    → Follows h p idle
    → 0 < holds x h
    → IsActive p
held-IsActive x h (ret a) e some_held =
    absurd (none_held x (subst (λ g. 0 < holds x g) e some_held))
  where
    none_held : (y : Semaphore) → 0 < holds y idle → ⊥
    none_held users_mutex lt = absurd (omega arith)
    none_held auctions_mutex lt = absurd (omega arith)
    none_held auction_id_mutex lt = absurd (omega arith)
held-IsActive x h (piece m k) follows some_held = in_piece
held-IsActive x h (wait y p) follows some_held = at_wait
held-IsActive x h (post y p) follows some_held = at_post

-- A thread that holds a semaphore, where all that do may go on.
pick :
    (x : Semaphore) (s : Server) (ps : List (Prog (Unit {0}))) (hs : List Holding)
    → Fits ps hs
    → ((h : Holding) → 0 < holds x h → MayTake s h)
    → 0 < held x hs
    → Any (Ready s) ps
pick x s [] [] fits free some_held = absurd (omega arith)
pick x s [] (h ∷ hs) fits free some_held = absurd fits
pick x s (p ∷ ps) [] fits free some_held = absurd fits
pick x s (p ∷ ps) (h ∷ hs) (follows, fits) free some_held = elim (zero-or-suc (holds x h)) [
  | inl none_here ↦ other (pick x s ps hs fits free (omega (arith, none_here)))
  | inr (n, held_here) ↦
      let lt : 0 < holds x h = (omega (arith, held_here)) in
      first (active-Ready s h p follows (free h lt) (held-IsActive x h p follows lt))
]

pick_active :
    (s : Server) (ps : List (Prog (Unit {0}))) (hs : List Holding)
    → Fits ps hs
    → ((h : Holding) → MayTake s h)
    → Any IsActive ps
    → Any (Ready s) ps
pick_active s [] hs fits free none_active = elim none_active [ ]
pick_active s (p ∷ ps) [] fits free (first a) = absurd fits
pick_active s (p ∷ ps) [] fits free (other a) = absurd fits
pick_active s (p ∷ ps) (h ∷ hs) (follows, fits) free (first a) =
    first (active-Ready s h p follows (free h) a)
pick_active s (p ∷ ps) (h ∷ hs) (follows, fits) free (other a) =
    other (pick_active s ps hs fits free a)

-- With one of the last semaphores in hand a thread takes no other, and with that of the auctions in
-- hand, only one of the last.
users-last : (s : Server) (h : Holding) → 0 < holds users_mutex h → MayTake s h
users-last s (o, with_users) lt users_mutex g e = cc
users-last s (o, with_users) lt auction_id_mutex g e = cc
users-last s (true, with_users) lt auctions_mutex g e = cc
users-last s (false, with_users) lt auctions_mutex g e = cc
users-last s (o, no_other) lt x g e = absurd (omega arith)
users-last s (o, with_ids) lt x g e = absurd (omega arith)

ids-last : (s : Server) (h : Holding) → 0 < holds auction_id_mutex h → MayTake s h
ids-last s (o, with_ids) lt users_mutex g e = cc
ids-last s (o, with_ids) lt auction_id_mutex g e = cc
ids-last s (true, with_ids) lt auctions_mutex g e = cc
ids-last s (false, with_ids) lt auctions_mutex g e = cc
ids-last s (o, no_other) lt x g e = absurd (omega arith)
ids-last s (o, with_users) lt x g e = absurd (omega arith)

auctions-before :
    (s : Server)
    → s.users_mutex ≡ 1
    → s.auction_id_mutex ≡ 1
    → (h : Holding) → 0 < holds auctions_mutex h
    → MayTake s h
auctions-before s users ids (true, i) lt users_mutex g e = users
auctions-before s users ids (true, i) lt auction_id_mutex g e = ids
auctions-before s users ids (true, i) lt auctions_mutex g e = cc
auctions-before s users ids (false, i) lt x g e = absurd (omega arith)

-- However the steps of any number of threads interleave, from the start of the server on, each thread
-- one that works on a job, counts a tick, or logs a client in behind the message that it has read,
-- and each call of a semaphore function and each piece between two of them one step: while some of
-- these threads has not come to its end, one of them waits for no semaphore, but has a next step or
-- ends the process with its next piece. Threads that wait for `buffer_lock`, for a client's message or
-- at the buffer of jobs are not among them.
pub Reach-Ready :
    {ps : List (Prog (Unit {0}))} {s : Server} → Reach ps s → Any IsActive ps → Any (Ready s) ps
Reach-Ready {ps} {s} r active =
    let o = Reach-IsOrdered r in
    let users = o.counted users_mutex in
    let ids = o.counted auction_id_mutex in
    let auctions = o.counted auctions_mutex in
    elim (zero-or-suc (held users_mutex o.holdings)) [
      | inr (n, e) ↦ pick users_mutex s ps o.holdings o.fits (users-last s) (omega (arith, e))
      | inl no_users ↦ elim (zero-or-suc (held auction_id_mutex o.holdings)) [
        | inr (n, e) ↦ pick auction_id_mutex s ps o.holdings o.fits (ids-last s) (omega (arith, e))
        | inl no_ids ↦
            let users_one : s.users_mutex ≡ 1 = (omega (arith, users, no_users)) in
            let ids_one : s.auction_id_mutex ≡ 1 = (omega (arith, ids, no_ids)) in
            elim (zero-or-suc (held auctions_mutex o.holdings)) [
              | inr (n, e) ↦
                  pick auctions_mutex s ps o.holdings o.fits (auctions-before s users_one ids_one)
                    (omega (arith, e))
              | inl no_auctions ↦
                  pick_active s ps o.holdings o.fits
                    (λ h x g _. all_one users_one (omega (arith, auctions, no_auctions)) ids_one x)
                    active
            ]
      ]
    ]
  where
    all_one :
        s.users_mutex ≡ 1
        → s.auctions_mutex ≡ 1
        → s.auction_id_mutex ≡ 1
        → (x : Semaphore) → value x s ≡ 1
    all_one u a i users_mutex = u
    all_one u a i auctions_mutex = a
    all_one u a i auction_id_mutex = i
