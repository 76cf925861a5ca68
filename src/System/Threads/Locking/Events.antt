-- ===== src/System/Threads/Locking/Events.antt =====
-- The programs of src/finalsample.c, one for each call, take the semaphores in their order.
use zbid.Base.{◌≡◌, refl, none, zero, suc, Option, some, ℕ, ◌==◌, ℤ, pos, eq_ℤ, Text}
use zbid.Server.{CharPtr, User, Address, Server}
use zbid.Server.Protocol.{MsgType, code}
use zbid.Server.Monad.{M, Semaphore, users_mutex, auctions_mutex}
use zbid.Auctions.Find.{remove_auction}
use zbid.Jobs.Process.{Blocks, Job}
use zbid.Jobs.Text.{strtok}
use zbid.System.Threads.Pieces.{first_of}
use zbid.System.Threads
use zbid.System.Threads.{Prog, ret, piece, wait, post, do_piece}
use zbid.System.Threads.Programs.{
  under, close_thread, create_thread, bid_thread, switch_thread, job_thread, walk_thread,
  tick_thread, login_thread, Call, log_in, work, count, thread_of,
}
use zbid.System.Threads.Quiet.{Quiet, returned, back, add_int-Quiet, atoi-Quiet}
use zbid.System.Threads.Quiet.Handlers.{
  remove_auction-Quiet, watch_auction-Quiet, leave_auction-Quiet,
}
use zbid.System.Threads.Quiet.Sessions.{
  logout-Quiet, login-Quiet, next_piece-Quiet, count_down-Quiet, copy_message-Quiet,
}
use zbid.System.Threads.Quiet.Reports.{
  list_auctions-Quiet, print_users-Quiet, user_balance-Quiet, users_wins-Quiet, users_sales-Quiet,
}
use zbid.System.Threads.Locking.{Holding, idle, taking, giving, Follows, Follows-bind}
use zbid.System.Threads.Locking.Handlers.{
  under-Follows, piece-Follows, if-Follows, listed, close-Follows, create-Follows, bid-Follows,
}

-- A handler without other semaphores, under one.
answer-Follows :
    (x : Semaphore) (g : Holding) (m : M (Unit {0}))
    → taking x idle ≡ some g
    → giving x g ≡ some idle
    → ((s : Server) → Quiet s (m s))
    → Follows idle (under x (do_piece m)) idle
answer-Follows x g m takes gives quiet =
    under-Follows x (do_piece m) idle g takes gives (piece-Follows m g quiet)

switch-Follows :
    (b : Blocks) (fd : ℤ) (type : ℕ) (text : Text)
    → Follows idle (switch_thread b fd type text) idle
unfolding switch_thread
switch-Follows b fd type text =
    if-Follows (type == code MsgType.logout) _ _ idle idle (piece-Follows _ idle (logout-Quiet fd))
      (if-Follows (type == code MsgType.ancreate) _ _ idle idle
        (
          atoi-Quiet _,
          λ d. (
            atoi-Quiet _,
            λ n.
                let (item, _, _) = strtok b.message text in
                under-Follows auctions_mutex (create_thread b.auction b.auction_block fd item d n)
                  idle listed refl refl (create-Follows b.auction b.auction_block fd item d n),
          ),
        )
        (if-Follows (type == code MsgType.anlist) _ _ idle idle
          (answer-Follows auctions_mutex listed _ refl refl (list_auctions-Quiet fd))
          (if-Follows (type == code MsgType.anwatch) _ _ idle idle
            (
              atoi-Quiet _,
              λ id. answer-Follows auctions_mutex listed _ refl refl (watch_auction-Quiet fd id),
            )
            (if-Follows (type == code MsgType.anleave) _ _ idle idle
              (
                atoi-Quiet _,
                λ id. answer-Follows auctions_mutex listed _ refl refl (leave_auction-Quiet fd id),
              )
              (if-Follows (type == code MsgType.anbid) _ _ idle idle
                (
                  atoi-Quiet _,
                  λ id. (
                    atoi-Quiet _,
                    λ amount.
                        under-Follows auctions_mutex (bid_thread fd id amount) idle listed refl refl
                          (bid-Follows fd id amount),
                  ),
                )
                (if-Follows (type == code MsgType.usrlist) _ _ idle idle
                  (answer-Follows users_mutex _ _ refl refl (print_users-Quiet b.stack fd))
                  (if-Follows (type == code MsgType.usrwins) _ _ idle idle
                    (answer-Follows users_mutex _ _ refl refl (users_wins-Quiet fd))
                    (if-Follows (type == code MsgType.usrsales) _ _ idle idle
                      (answer-Follows users_mutex _ _ refl refl (users_sales-Quiet fd))
                      (if-Follows (type == code MsgType.usrblnc) _ _ idle idle
                        (answer-Follows users_mutex _ _ refl refl (user_balance-Quiet fd))
                        refl)))))))))

job-Follows : (b : Blocks) (j : Job) → Follows idle (job_thread b j) idle
unfolding job_thread
job-Follows b j = (copy_message-Quiet b j, λ text. switch-Follows b j.clientfd j.job_msg_type text)

walk-Follows : (n : ℕ) (r : Option Address) → Follows idle (walk_thread n r) idle
unfolding walk_thread
walk-Follows n none = refl
walk-Follows zero (some p) = refl
walk-Follows (suc n) (some p) = (
  count_down-Quiet p,
  λ left.
      if-Follows (eq_ℤ left (pos 0)) _ _ idle idle
        (under-Follows auctions_mutex (Threads.◌>>◌ (close_thread p) (do_piece (remove_auction p)))
          idle listed refl refl
          (Follows-bind (close_thread p) (λ _. do_piece (remove_auction p)) listed listed listed
            (close-Follows p) λ _. piece-Follows _ listed (remove_auction-Quiet p)))
        (next_piece-Quiet p, walk-Follows n),
)

tick-Follows : (n : ℕ) → Follows idle (tick_thread n) idle
unfolding tick_thread
tick-Follows n = (
  λ s. returned s.tick s,
  λ old. (
    add_int-Quiet old (pos 1),
    λ now. (
      λ s. back (record { users = refl; auctions = refl; ids = refl }),
      λ _. (λ s. returned s.auctions s, λ auctions. walk-Follows n (first_of auctions)),
    ),
  ),
)

login-Follows :
    (fd : ℤ) (block : User) (name word : CharPtr)
    → Follows idle (login_thread fd block name word) idle
unfolding login_thread
login-Follows fd block name word = (_, refl, (login-Quiet block fd name word, λ r. (_, refl, refl)))

pub thread_of-Follows : (e : Call) → Follows idle (thread_of e) idle
unfolding thread_of
thread_of-Follows (log_in fd block name word) = login-Follows fd block name word
thread_of-Follows (work b j) = job-Follows b j
thread_of-Follows (count n) = tick-Follows n
