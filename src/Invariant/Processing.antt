-- ===== src/Invariant/Processing.antt =====
-- `processJob` of src/finalsample.c and the invariant.
use zbid.Base.{
  ℕ, zero, suc, ◌+◌, ◌≡◌, refl, ap, Bool, true, false, none, some, inl, inr, ◌==◌, arith,
  Bool-cases, ℤ, Text, length, leb, get_elem?, if◌then◌else◌, fits_int,
}
use zbid.Server.{Address, CharPtr, User, Auction, Server}
use zbid.Server.Protocol.{MsgType, code}
use zbid.Server.Monad.{M, pure, halt, overrun, users_mutex, auctions_mutex}
use zbid.Server.Monad.Ensures
use zbid.Server.Monad.Ensures.{Ensures, returns, bounded}
use zbid.Users.Find.{find_username}
use zbid.Users.Find.Known.{Knows}
use zbid.Jobs.Text.{strtok, atoi, parse_int}
use zbid.Jobs.Process.{
  Job, Blocks, locked, copy_message, create_job, watch_job, leave_job, bid_job, switch, process_job,
  whole,
}
use zbid.Invariant.{IsNonNull, IsValid, IsValidAt, Keeps, KeepsAt}
use zbid.Invariant.Update.{OnlySends, Keeps-refl, OnlySends-Keeps}
use zbid.Invariant.Bidding.{bid_auction-Keeps}
use zbid.Invariant.Watching.{watch_auction-Keeps, leave_auction-Keeps}
use zbid.Invariant.Creating.{create_auction-Keeps}
use zbid.Invariant.Session.{logout-Keeps}
use zbid.Invariant.Reporting.{
  user_balance-OnlySends, users_wins-OnlySends, users_sales-OnlySends, print_users-OnlySends,
  list_auctions-OnlySends,
}

-- The invariant does not depend on the semaphores but by their values.
pub users_mutex-IsValid :
    {m : ℕ} (n : ℕ) (s : Server) → IsValidAt m s → IsValidAt n (record s { users_mutex = n })
users_mutex-IsValid n s v = record {
  listed = v.listed;
  named = v.named;
  secured = v.secured;
  held = v.held;
  users_free = refl;
  numbered = v.numbered;
  ids_free = v.ids_free;
}

pub auctions_mutex-IsValid :
    {m : ℕ} (n : ℕ) (s : Server) → IsValidAt m s → IsValidAt m (record s { auctions_mutex = n })
auctions_mutex-IsValid n s v = record {
  listed = v.listed;
  named = v.named;
  secured = v.secured;
  held = v.held;
  users_free = v.users_free;
  numbered = v.numbered;
  ids_free = v.ids_free;
}

-- A handler that keeps the invariant under a semaphore does so between `P` and `V`.
pub locked_auctions-Keeps :
    (h : M (Unit {0})) (s : Server)
    → s.auctions_mutex ≡ 1
    → Ensures
        (λ _ t. Keeps (record s { auctions_mutex = 0 }) t)
        (h (record s { auctions_mutex = 0 }))
    → Ensures (λ _ t. Keeps s t) (locked auctions_mutex h s)
unfolding locked
locked_auctions-Keeps h s free run = rw free (
    Ensures.bind run λ _ t kept. returns (record {
      valid = auctions_mutex-IsValid (suc t.auctions_mutex) t kept.valid;
      money = kept.money;
      mutex = ap suc kept.mutex;
    }))

pub locked_users-Keeps :
    (h : M (Unit {0})) (s : Server)
    → s.users_mutex ≡ 1
    → Ensures (λ _ t. KeepsAt 0 (record s { users_mutex = 0 }) t) (h (record s { users_mutex = 0 }))
    → Ensures (λ _ t. Keeps s t) (locked users_mutex h s)
unfolding locked
locked_users-Keeps h s free run = rw free (
    Ensures.bind run λ _ t kept. rw kept.valid.users_free (
      returns (record {
        valid = users_mutex-IsValid 1 t kept.valid;
        money = kept.money;
        mutex = kept.mutex;
      })))

-- The first tokens of the text, as many as the number says, are there.
abbrev pub HasFields : ℕ → Address → Text → Type 0
HasFields zero p text = Unit
HasFields (suc k) p text =
    let (token, q, rest) = strtok p text in IsNonNull token × HasFields k q rest

atoi-Ensures : (c : CharPtr) (s : Server) → IsNonNull c → Ensures (λ _ t. t ≡ s) (atoi c s)
unfolding atoi
atoi-Ensures c s (t, e) = elim (Bool-cases (fits_int (parse_int t.text))) [
  | inl fits ↦ rw (e, fits) (returns refl)
  | inr big ↦ rw (e, big) (bounded tt)
]

-- What the handlers rely on in a message: the fields of ANCREATE and ANBID are there, and the client
-- watches what it leaves. An auction is made at an address that is not in use.
pub record IsReadable (b : Blocks) (u : User) (s : Server) (type : ℕ) (text : Text) : Type 0 where
  pub creating : type ≡ code MsgType.ancreate → HasFields 3 b.message text
  pub fresh : type ≡ code MsgType.ancreate → s.heap b.auction ≡ none
  pub bidding : type ≡ code MsgType.anbid → HasFields 2 b.message text
  pub leaving :
      type ≡ code MsgType.anleave
      → (p : Address) (a : Auction) → s.heap p ≡ some a
      → a.id ≡ parse_int text
      → Knows a.watchers u.username

-- A client that is logged in, in a valid state in which the semaphore of the auctions is free.
module _ (b : Blocks) (client_fd : ℤ) (i : ℕ) (u : User) (s : Server) (v : IsValid s)
    (free : s.auctions_mutex ≡ 1) (found : find_username client_fd s.users ≡ some i)
    (at : get_elem? s.users i ≡ some u) where
  abbrev taken : Server
  taken = record s { auctions_mutex = 0 }

  taken-IsValid : IsValid taken
  taken-IsValid = auctions_mutex-IsValid 0 s v

  create_job-Keeps :
      (text : Text)
      → HasFields 3 b.message text
      → s.heap b.auction ≡ none
      → Ensures (λ _ t. Keeps s t) (create_job b client_fd text s)
  unfolding create_job
  create_job-Keeps text (name, (duration, (price, _))) fresh =
      Ensures.bind (atoi-Ensures _ s duration) λ d t e. rw e (
        Ensures.bind (atoi-Ensures _ s price) λ n t e. rw e (
          let (item, named) = name in
          rw named (
            locked_auctions-Keeps _ s free (
              create_auction-Keeps b.auction b.auction_block client_fd item d n i taken
                taken-IsValid found fresh))))

  watch_job-Keeps : (text : Text) → Ensures (λ _ t. Keeps s t) (watch_job b client_fd text s)
  unfolding watch_job
  watch_job-Keeps text = Ensures.bind (atoi-Ensures _ s (_, refl)) λ id t e. rw e (
      locked_auctions-Keeps _ s free (watch_auction-Keeps client_fd id i taken taken-IsValid found))

  leave_job-Keeps :
      (text : Text)
      → ((p : Address) (a : Auction)
          → s.heap p ≡ some a
          → a.id ≡ parse_int text
          → Knows a.watchers u.username)
      → Ensures (λ _ t. Keeps s t) (leave_job b client_fd text s)
  unfolding leave_job atoi
  leave_job-Keeps text watches = elim (Bool-cases (fits_int (parse_int text))) [
    | inl fits ↦ rw fits (
        locked_auctions-Keeps _ s free
          (leave_auction-Keeps client_fd (parse_int text) i u taken taken-IsValid found at watches))
    | inr big ↦ rw big (bounded tt)
  ]

  bid_job-Keeps :
      (text : Text)
      → HasFields 2 b.message text
      → Ensures (λ _ t. Keeps s t) (bid_job b client_fd text s)
  unfolding bid_job
  bid_job-Keeps text (id_token, (bid_token, _)) = Ensures.bind (atoi-Ensures _ s id_token) λ id t e.
      rw e (
        Ensures.bind (atoi-Ensures _ s bid_token) λ bid t e. rw e (
          locked_auctions-Keeps _ s free
            (bid_auction-Keeps client_fd id bid i taken taken-IsValid found)))

  reading :
      (h : M (Unit {0}))
      → Ensures
          (λ _ t. OnlySends (record s { users_mutex = 0 }) t)
          (h (record s { users_mutex = 0 }))
      → Ensures (λ _ t. Keeps s t) (locked users_mutex h s)
  reading h run = locked_users-Keeps h s v.users_free (
      Ensures.mono run
        λ _ t. OnlySends-Keeps (record s { users_mutex = 0 }) t (users_mutex-IsValid 0 s v))

  switch-Keeps :
      (type : ℕ) (text : Text)
      → IsReadable b u s type text
      → Ensures (λ _ t. Keeps s t) (switch b client_fd type text s)
  unfolding switch
  switch-Keeps type text readable =
      let unlocked = users_mutex-IsValid 0 s v in
      either _ _ (type == code MsgType.logout) (λ _. logout-Keeps client_fd s v)
        λ _.
          either _ _ (type == code MsgType.ancreate)
            (λ e.
              create_job-Keeps text (readable.creating (type_eq _ e))
                (readable.fresh (type_eq _ e)))
            λ _.
              either _ _ (type == code MsgType.anlist)
                (λ _. locked_auctions-Keeps _ s free (
                  Ensures.mono (list_auctions-OnlySends client_fd taken taken-IsValid)
                    λ _ t. OnlySends-Keeps taken t taken-IsValid))
                λ _.
                  either _ _ (type == code MsgType.anwatch) (λ _. watch_job-Keeps text)
                    λ _.
                      either _ _ (type == code MsgType.anleave)
                        (λ e. leave_job-Keeps text (readable.leaving (type_eq _ e)))
                        λ _.
                          either _ _ (type == code MsgType.anbid)
                            (λ e. bid_job-Keeps text (readable.bidding (type_eq _ e)))
                            λ _.
                              either _ _ (type == code MsgType.usrlist)
                                (λ _.
                                  reading _ (print_users-OnlySends b.stack client_fd _ unlocked))
                                λ _.
                                  either _ _ (type == code MsgType.usrwins)
                                    (λ _.
                                      reading _ (users_wins-OnlySends client_fd i _ unlocked found))
                                    λ _.
                                      either _ _ (type == code MsgType.usrsales)
                                        (λ _.
                                          reading _
                                            (users_sales-OnlySends client_fd i _ unlocked found))
                                        λ _.
                                          either _ _ (type == code MsgType.usrblnc)
                                            (λ _.
                                              reading _ (
                                                user_balance-OnlySends client_fd i _ unlocked
                                                  found))
                                            λ _. returns (Keeps-refl s v)
    where
      type_eq : (n : ℕ) → (type == n) ≡ true → type ≡ n
      type_eq n e = ground (arith, e)

      either :
          (m n : M (Unit {0})) (c : Bool)
          → (c ≡ true → Ensures (λ _ t. Keeps s t) (m s))
          → (c ≡ false → Ensures (λ _ t. Keeps s t) (n s))
          → Ensures (λ _ t. Keeps s t) ((if c then m else n) s)
      either m n true yes_case no_case = yes_case refl
      either m n false yes_case no_case = no_case refl

  -- A job of a client that is logged in, with a block for the copy of its message, the fields that
  -- its type wants, an auction that the client watches where it leaves one and an unused address
  -- for an auction that it creates, in a valid state with the semaphore of the auctions free: it
  -- reads no NULL pointer and waits for no semaphore, whatever its type; where it returns, the
  -- state is valid, the sum of all balances is what it was and every semaphore that it took is free
  -- again. It may stop only at a full buffer or an `int` out of range.
  pub process_job-Keeps :
      (job : Job) (room : ℕ)
      → job.clientfd ≡ client_fd
      → b.usable job.job_msg_length ≡ some room
      → IsReadable b u s job.job_msg_type job.job_buffer
      → Ensures (λ _ t. Keeps s t) (process_job b job s)
  unfolding process_job copy_message
  process_job-Keeps job room own given readable =
      rw (own, given, whole job.job_buffer)
        (Ensures.bind (copied job.job_buffer room)
          λ text t (e, same). rw (e, same) (switch-Keeps job.job_msg_type job.job_buffer readable))
    where
      copied :
          (text : Text) (room : ℕ)
          → Ensures
              (λ copy t. (t ≡ s) × (copy ≡ text))
              ((if leb (length text + 1) room then pure text else halt overrun) s)
      copied text room = elim (Bool-cases (leb (length text + 1) room)) [
        | inl fits ↦ rw fits (returns (refl, refl))
        | inr big ↦ rw big (bounded tt)
      ]
