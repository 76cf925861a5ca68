-- ===== src/System/House/Refines.antt =====
-- Connections, jobs and ticks of src/finalsample.c do what they order the house to do.
use zbid.Base.{
  true, false, Bool, if◌then◌else◌, ◌≡◌, refl, ap, Bool, true, false, Bool-cases, inl, inr, some, ℕ,
  ◌+◌, ◌==◌, arith, length, leb, get_elem?, ℤ, pos, eq_ℤ, ltb_ℤ, Text, if◌then◌else◌,
}
use zbid.Server.{User, Server}
use zbid.Server.Protocol.{MsgType, code}
use zbid.Server.Monad.{
  M, pure, Semaphore, users_mutex, auctions_mutex, auction_id_mutex, value, set_value,
}
use zbid.Server.Monad.Ensures
use zbid.Server.Monad.Ensures.{Ensures, returns, bounded}
use zbid.Users.Find.{find_username}
use zbid.Jobs.Text.{parse_int}
use zbid.Jobs.Accept.{Hello, login_hello, accept_client}
use zbid.Jobs.Block.{c_string, filled}
use zbid.Jobs.Process.{Job, Blocks, locked, copy_message, switch, process_job, whole}
use zbid.Reports.Listing.{print_users}
use zbid.Reports.Account.{user_balance, users_wins, users_sales}
use zbid.Invariant.{IsValid}
use zbid.Invariant.Update.{OnlySends}
use zbid.Invariant.Accepting.{IsLogin, login_hello-held_up}
use zbid.Invariant.Processing.{IsReadable, users_mutex-IsValid, auctions_mutex-IsValid}
use zbid.Invariant.Reporting.{
  user_balance-OnlySends, users_wins-OnlySends, users_sales-OnlySends, print_users-OnlySends,
  list_auctions-OnlySends,
}
use zbid.System.{Event, hello, job, tick, handle, IsAdmissible, Reach}
use zbid.System.Safety.{Reach-IsBalanced}
use zbid.System.House.{house}
use zbid.System.House.Opening.{login_hello-house, logout-house}
use zbid.System.House.Ticking.{run_tick-house}
use zbid.System.House.Commands.{
  Command, nothing, opens, name_in, watches, leaves, client_name, create_order, bid_order,
  type_order, hello_order, order,
}
use zbid.System.House.Orders.{
  Obeys, locked-Obeys, create_job-Obeys, watch_job-Obeys, leave_job-Obeys, bid_job-Obeys,
}

-- A client that is logged in, in a valid state in which the semaphore of the auctions is free.
module _ (b : Blocks) (client_fd : ℤ) (i : ℕ) (u : User) (s : Server) (v : IsValid s)
    (free : s.auctions_mutex ≡ 1) (found : find_username client_fd s.users ≡ some i)
    (at : get_elem? s.users i ≡ some u) where
  abbrev taken : Server
  taken = record s { auctions_mutex = 0 }

  -- A report changes nothing.
  reading :
      (m : Semaphore) (h : M (Unit {0}))
      → value m s ≡ 1
      → Ensures (λ _ t. OnlySends (set_value m 0 s) t) (h (set_value m 0 s))
      → Obeys s nothing (locked m h s)
  reading users_mutex h one run =
      locked-Obeys users_mutex h s nothing one (Ensures.mono run λ _ t (ms, e). ap house e)
  reading auctions_mutex h one run =
      locked-Obeys auctions_mutex h s nothing one (Ensures.mono run λ _ t (ms, e). ap house e)
  reading auction_id_mutex h one run =
      locked-Obeys auction_id_mutex h s nothing one (Ensures.mono run λ _ t (ms, e). ap house e)

  type_eq : (type n : ℕ) → (type == n) ≡ true → type ≡ n
  type_eq type n e = ground (arith, e)

  -- One branch of the `switch` and of what the message orders.
  either :
      (m n : M (Unit {0})) (x y : Command) (c : Bool)
      → (c ≡ true → Obeys s x (m s))
      → (c ≡ false → Obeys s y (n s))
      → Obeys s (if c then x else y) ((if c then m else n) s)
  either m n x y true yes_case no_case = yes_case refl
  either m n x y false yes_case no_case = no_case refl

  -- A branch of the `switch` that orders nothing.
  quiet :
      (m n : M (Unit {0})) (x : Command) (c : Bool)
      → (c ≡ true → x ≡ nothing)
      → (c ≡ true → Obeys s nothing (m s))
      → (c ≡ false → Obeys s x (n s))
      → Obeys s x ((if c then m else n) s)
  quiet m n x true idle yes_case no_case = rw (idle refl) (yes_case refl)
  quiet m n x false idle yes_case no_case = no_case refl

  -- The types of message that order nothing.
  reports :
      (type : ℕ) (text : Text)
      → Obeys s nothing (
          (if type == code MsgType.usrlist
              then locked users_mutex (print_users b.stack client_fd)
              else if type == code MsgType.usrwins
              then locked users_mutex (users_wins client_fd)
              else if type == code MsgType.usrsales
              then locked users_mutex (users_sales client_fd)
              else if type == code MsgType.usrblnc
              then locked users_mutex (user_balance client_fd)
              else pure tt)
            s)
  reports type text =
      let unlocked = users_mutex-IsValid 0 s v in
      quiet _ _ nothing (type == code MsgType.usrlist) (λ _. refl)
        (λ _.
          reading users_mutex _ v.users_free (print_users-OnlySends b.stack client_fd _ unlocked))
        λ _.
          quiet _ _ nothing (type == code MsgType.usrwins) (λ _. refl)
            (λ _.
              reading users_mutex _ v.users_free
                (users_wins-OnlySends client_fd i _ unlocked found))
            λ _.
              quiet _ _ nothing (type == code MsgType.usrsales) (λ _. refl)
                (λ _.
                  reading users_mutex _ v.users_free
                    (users_sales-OnlySends client_fd i _ unlocked found))
                λ _.
                  quiet _ _ nothing (type == code MsgType.usrblnc) (λ _. refl)
                    (λ _.
                      reading users_mutex _ v.users_free
                        (user_balance-OnlySends client_fd i _ unlocked found))
                    λ _. returns refl

  switch-Obeys :
      (type : ℕ) (text : Text)
      → IsReadable b u s type text
      → Obeys s (type_order s b client_fd type text) (switch b client_fd type text s)
  unfolding switch code
  switch-Obeys type text readable =
      quiet _ _ (type_order s b client_fd type text) (type == code MsgType.logout)
        (λ e. rw (type_eq type _ e) refl) (λ _. logout-house client_fd s)
        λ _.
          either _ _ (create_order s b client_fd text) _ (type == code MsgType.ancreate)
            (λ e.
              create_job-Obeys b client_fd i u s v free found at text
                (readable.creating (type_eq type _ e)) (readable.fresh (type_eq type _ e)))
            λ _.
              quiet _ _ _ (type == code MsgType.anlist) (λ e. rw (type_eq type _ e) refl)
                (λ _.
                  reading auctions_mutex _ free
                    (list_auctions-OnlySends client_fd taken (auctions_mutex-IsValid 0 s v)))
                λ _.
                  either _ _ (watches (client_name client_fd s.users) (parse_int text)) _
                    (type == code MsgType.anwatch)
                    (λ _. watch_job-Obeys b client_fd i u s v free found at text)
                    λ _.
                      either _ _ (leaves (client_name client_fd s.users) (parse_int text)) _
                        (type == code MsgType.anleave)
                        (λ e.
                          leave_job-Obeys b client_fd i u s v free found at text
                            (readable.leaving (type_eq type _ e)))
                        λ _.
                          either _ _ (bid_order s b client_fd text) nothing
                            (type == code MsgType.anbid)
                            (λ e.
                              bid_job-Obeys b client_fd i u s v free found at text
                                (readable.bidding (type_eq type _ e)))
                            λ _. reports type text

  process_job-Obeys :
      (j : Job) (room : ℕ)
      → j.clientfd ≡ client_fd
      → b.usable j.job_msg_length ≡ some room
      → IsReadable b u s j.job_msg_type j.job_buffer
      → Obeys s (type_order s b client_fd j.job_msg_type j.job_buffer) (process_job b j s)
  unfolding process_job copy_message
  process_job-Obeys j room own given readable =
      rw (own, given, whole j.job_buffer)
        (elim (Bool-cases (leb (length j.job_buffer + 1) room)) [
          | inl fits ↦ rw fits (switch-Obeys j.job_msg_type j.job_buffer readable)
          | inr big ↦ rw big (bounded tt)
        ])

pub negative_ne_zero : (n : ℤ) → ltb_ℤ n (pos 0) ≡ true → eq_ℤ n (pos 0) ≡ false
unfolding eq_ℤ
negative_ne_zero n below = ground (arith, below)

-- A LOGIN that is read, or not.
login_hello-Obeys :
    (client_fd : ℤ) (m : Hello) (s : Server)
    → IsValid s
    → IsLogin m
    → (through : Bool) → m.got_through ≡ through
    → let opened : Command = opens (name_in m (c_string (filled m.msg_len m.received m.slack))) in
      Obeys s (if through then opened else nothing) (login_hello client_fd m s)
login_hello-Obeys client_fd m s v l true through =
    let (text, here, (name, _)) = l in
    rw (here, name.1) (login_hello-house client_fd m name.0 s v through l refl)
login_hello-Obeys client_fd m s v l false waits =
    rw (login_hello-held_up client_fd m s waits) (returns refl)

accept_client-Obeys :
    (client_fd : ℤ) (m : Hello) (s : Server)
    → IsValid s
    → (m.msg_type ≡ code MsgType.login → IsLogin m)
    → Obeys s (hello_order m) (accept_client client_fd m s)
unfolding accept_client
accept_client-Obeys client_fd m s v readable = elim (Bool-cases (ltb_ℤ m.result (pos 0))) [
  | inl failed ↦ rw (failed, negative_ne_zero m.result failed) (returns refl)
  | inr passed ↦ elim (Bool-cases (eq_ℤ m.result (pos 0))) [
    | inl read ↦ elim (Bool-cases (m.msg_type == 0x10)) [
      | inl log ↦
          rw (passed, read, log)
            (login_hello-Obeys client_fd m s v (readable (ground (arith, log))) m.got_through refl)
      | inr other ↦ rw (passed, read, other) (returns refl)
    ]
    | inr strange ↦ rw (passed, strange) (returns refl)
  ]
]

handle-Obeys :
    (e : Event) (s : Server)
    → IsValid s
    → s.auctions_mutex ≡ 1
    → IsAdmissible s e
    → Obeys s (order s e) (handle e s)
unfolding handle
handle-Obeys (hello client_fd m) s v free login =
    Ensures.bind (accept_client-Obeys client_fd m s v login) λ r t obeyed. returns obeyed
handle-Obeys (job b j) s v free r =
    process_job-Obeys b j.clientfd r.index r.user s v free r.found r.at j r.room refl r.given
      r.readable
handle-Obeys tick s v free _ = run_tick-house s v free

-- Where every LOGIN has a name and a password, and every job is a logged-in client's and has a
-- block for the copy of its message, the fields that its type wants, an auction that the client
-- watches where it leaves one, and an unused address for an auction that it creates: in every state
-- that the server reaches by connections, jobs and ticks, the next of them does what it orders the
-- house to do. Where it returns, the auctions on offer, the balances and the last id are those that
-- the command leaves: an account opened for a new name, an auction offered, watched, left or bid on
-- (and sold, for a bid above its price), a tick, or nothing. It reads no NULL pointer and waits for
-- no semaphore; it may stop only at a full buffer or an `int` out of range.
pub Reach-Obeys :
    {s : Server} (e : Event) → Reach s → IsAdmissible s e → Obeys s (order s e) (handle e s)
Reach-Obeys {s} e r admissible =
    let b = Reach-IsBalanced r in handle-Obeys e s b.valid b.free admissible
