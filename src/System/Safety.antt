-- ===== src/System/Safety.antt =====
-- What holds in every state that the server reaches from its start.
use zbid.Base.{◌≡◌, refl, ◌∙◌, subst, pos}
use zbid.Server.{Server}
use zbid.Server.Monad.Ensures
use zbid.Server.Monad.Ensures.{Ensures, Ensures-done, returns}
use zbid.Users.Total.{total}
use zbid.Invariant.{IsValid, Keeps}
use zbid.Invariant.Processing.{process_job-Keeps}
use zbid.Invariant.Accepting.{accept_client-Keeps}
use zbid.Invariant.Ticking.{run_tick-Keeps}
use zbid.System.{init, Event, hello, job, tick, handle, IsAdmissible, Reach, start, later}

-- The state is valid, the semaphore of the auctions is free and the balances add up to 0.
pub record IsBalanced (s : Server) : Type 0 where
  pub valid : IsValid s
  pub free : s.auctions_mutex ≡ 1
  pub money : total s.users ≡ pos 0

handle-Keeps :
    (e : Event) (s : Server)
    → IsValid s
    → s.auctions_mutex ≡ 1
    → IsAdmissible s e
    → Ensures (λ _ t. Keeps s t) (handle e s)
unfolding handle
handle-Keeps (hello client_fd m) s v free login =
    Ensures.bind (accept_client-Keeps client_fd m s v login) λ r t kept. returns kept
handle-Keeps (job b j) s v free r =
    process_job-Keeps b j.clientfd r.index r.user s v free r.found r.at j r.room refl r.given
      r.readable
handle-Keeps tick s v free _ = run_tick-Keeps s v free

handle-IsBalanced :
    (e : Event) (s : Server)
    → IsBalanced s
    → IsAdmissible s e
    → Ensures (λ _ t. IsBalanced t) (handle e s)
handle-IsBalanced e s b admissible =
    Ensures.mono (handle-Keeps e s b.valid b.free admissible) λ _ t kept. record {
      valid = kept.valid;
      free = kept.mutex ∙ b.free;
      money = kept.money ∙ b.money;
    }

init-IsBalanced : IsBalanced init
unfolding init total
init-IsBalanced = record {
  valid = record {
    listed = tt;
    named = tt;
    secured = tt;
    held = tt;
    users_free = refl;
    numbered = (tt, tt);
    ids_free = refl;
  };
  free = refl;
  money = refl;
}

-- Where every LOGIN has a name and a password, and every job is a logged-in client's and has a
-- block for the copy of its message, the fields that its type wants, an auction that the client
-- watches where it leaves one, and an unused address for an auction that it creates: in every state
-- that the server reaches by connections, jobs and ticks, the invariant holds, the ids of the
-- listed auctions are distinct, the three semaphores are free and all balances add up to 0.
pub Reach-IsBalanced : {s : Server} → Reach s → IsBalanced s
Reach-IsBalanced start = init-IsBalanced
Reach-IsBalanced (later {s} {t} e r admissible run) = Ensures-done (
    subst (Ensures (λ _ q. IsBalanced q)) run
      (handle-IsBalanced e s (Reach-IsBalanced r) admissible))

-- Where every LOGIN has a name and a password, and every job is a logged-in client's and has a
-- block for the copy of its message, the fields that its type wants, an auction that the client
-- watches where it leaves one, and an unused address for an auction that it creates: in every state
-- that the server reaches by connections, jobs and ticks, the next of them reads no NULL pointer
-- and waits for no semaphore; it comes to a state in which the invariant holds, all semaphores are
-- free and the balances add up to 0, or stops at a full buffer or an `int` out of range.
pub Reach-handle :
    {s : Server} (e : Event)
    → Reach s
    → IsAdmissible s e
    → Ensures (λ _ t. IsBalanced t) (handle e s)
Reach-handle {s} e r admissible = handle-IsBalanced e s (Reach-IsBalanced r) admissible
