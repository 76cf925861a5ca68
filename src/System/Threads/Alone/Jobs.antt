-- ===== src/System/Threads/Alone/Jobs.antt =====
-- A job of src/finalsample.c as a program of a thread that runs alone does what `process_job` does.
use zbid.Base.{◌≡◌, refl, ◌==◌, ℕ, ℤ, Text}
use zbid.Server.{Server}
use zbid.Server.Protocol.{MsgType, code}
use zbid.Server.Monad.{M, sem_wait, sem_post, Semaphore, users_mutex, auctions_mutex}
use zbid.Users.Session.{logout}
use zbid.Auctions.Watch.{watch_auction, leave_auction}
use zbid.Reports.Listing.{list_auctions, print_users}
use zbid.Reports.Account.{user_balance, users_wins, users_sales}
use zbid.Jobs.Text.{strtok, atoi}
use zbid.Jobs.Process.{
  Blocks, Job, locked, copy_message, create_job, watch_job, leave_job, bid_job, switch, process_job,
}
use zbid.System.Threads.{Prog, ret, post, run, do_piece}
use zbid.System.Threads.Programs.{
  under, create_thread, bid_thread, create_request, watch_request, leave_request, bid_request,
  switch_thread, job_thread,
}
use zbid.System.Threads.Alone.{same_next, and_then-done, follow, if-alone, create-alone, bid-alone}

locked-alone :
    (x : Semaphore) (p : Prog (Unit {0})) (m : M (Unit {0})) (s : Server)
    → ((t : Server) → run p t ≡ m t)
    → run (under x p) s ≡ locked x m s
unfolding run locked sem_post
locked-alone x p m s alone =
    same_next (sem_wait x s) λ _ t. follow p (λ r. post x (ret r)) t (alone t) λ _ t. refl

piece-alone :
    (x : Semaphore) (m : M (Unit {0})) (s : Server) → run (under x (do_piece m)) s ≡ locked x m s
unfolding run
piece-alone x m s = locked-alone x (do_piece m) m s λ t. and_then-done (m t)

create_request-alone :
    (b : Blocks) (fd : ℤ) (text : Text) (s : Server)
    → run (create_request b fd text) s ≡ create_job b fd text s
unfolding run create_job
create_request-alone b fd text s = same_next (atoi _ s) λ d t. same_next (atoi _ t) λ n t.
    locked-alone auctions_mutex
      (create_thread b.auction b.auction_block fd (strtok b.message text).0 d n) _ t
      (create-alone b.auction b.auction_block fd _ d n)

watch_request-alone :
    (b : Blocks) (fd : ℤ) (text : Text) (s : Server)
    → run (watch_request b fd text) s ≡ watch_job b fd text s
unfolding run watch_job
watch_request-alone b fd text s =
    same_next (atoi _ s) λ id t. piece-alone auctions_mutex (watch_auction fd id) t

leave_request-alone :
    (b : Blocks) (fd : ℤ) (text : Text) (s : Server)
    → run (leave_request b fd text) s ≡ leave_job b fd text s
unfolding run leave_job
leave_request-alone b fd text s =
    same_next (atoi _ s) λ id t. piece-alone auctions_mutex (leave_auction fd id) t

bid_request-alone :
    (b : Blocks) (fd : ℤ) (text : Text) (s : Server)
    → run (bid_request b fd text) s ≡ bid_job b fd text s
unfolding run bid_job
bid_request-alone b fd text s = same_next (atoi _ s) λ id t.
    same_next (atoi _ t)
      λ amount t. locked-alone auctions_mutex (bid_thread fd id amount) _ t (bid-alone fd id amount)

switch-alone :
    (b : Blocks) (fd : ℤ) (type : ℕ) (text : Text) (s : Server)
    → run (switch_thread b fd type text) s ≡ switch b fd type text s
unfolding run switch_thread switch
switch-alone b fd type text s =
    if-alone (type == code MsgType.logout) _ _ _ _ s (and_then-done (logout fd s)) (
      if-alone (type == code MsgType.ancreate) _ _ _ _ s (create_request-alone b fd text s) (
        if-alone (type == code MsgType.anlist) _ _ _ _ s
          (piece-alone auctions_mutex (list_auctions fd) s)
          (if-alone (type == code MsgType.anwatch) _ _ _ _ s (watch_request-alone b fd text s) (
            if-alone (type == code MsgType.anleave) _ _ _ _ s (leave_request-alone b fd text s) (
              if-alone (type == code MsgType.anbid) _ _ _ _ s (bid_request-alone b fd text s) (
                if-alone (type == code MsgType.usrlist) _ _ _ _ s
                  (piece-alone users_mutex (print_users b.stack fd) s)
                  (if-alone (type == code MsgType.usrwins) _ _ _ _ s
                    (piece-alone users_mutex (users_wins fd) s)
                    (if-alone (type == code MsgType.usrsales) _ _ _ _ s
                      (piece-alone users_mutex (users_sales fd) s)
                      (if-alone (type == code MsgType.usrblnc) _ _ _ _ s
                        (piece-alone users_mutex (user_balance fd) s) refl)))))))))

job-alone : (b : Blocks) (j : Job) (s : Server) → run (job_thread b j) s ≡ process_job b j s
unfolding run job_thread process_job
job-alone b j s =
    same_next (copy_message b j s) λ text t. switch-alone b j.clientfd j.job_msg_type text t
