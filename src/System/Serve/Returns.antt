-- ===== src/System/Serve/Returns.antt =====
-- The loop of `run_server` over the connections comes to an end.
use zbid.Base.{
  true, false, not, Bool, if◌then◌else◌, ◌≡◌, refl, some, Bool-cases, List, [], ◌∷◌, ℤ, pos, negsuc,
  ltb_ℤ, eq_ℤ, inl, inr, arith, ◌==◌,
}
use zbid.Server.{CString, User, Server}
use zbid.Server.Protocol.{MsgType, code}
use zbid.Server.Monad.{M, done, ◌>>=◌}
use zbid.Server.Monad.Ensures.{Ensures-run}
use zbid.Users.Session.Outcome.{login-LoggedIn}
use zbid.Jobs.Accept.{Hello, Accepted, closed, started, login_locked, login_hello, accept_client}
use zbid.Invariant.{IsValid, Keeps}
use zbid.Invariant.Update.{Keeps-refl, Keeps-trans}
use zbid.Invariant.Session.{login-Keeps}
use zbid.Invariant.Processing.{users_mutex-IsValid}
use zbid.Invariant.Accepting.{IsLogin, login_hello-held_up, accept_client-Keeps}
use zbid.System.Serve.{Arrival, Served, held_up, unless_ended, ends_at, outcome, serve}

-- The loop goes on behind the round.
abbrev GoesOn : Accepted → Type 0
GoesOn r = (k : M Served) → unless_ended r k ≡ k

login_locked-returns :
    (block : User) (client_fd : ℤ) (n word : CString) (s : Server)
    → IsValid s
    → (r : Accepted) × (t : Server) × (login_locked block client_fd (some n) (some word) s
        ≡ done r t)
      × GoesOn r
unfolding login_locked
login_locked-returns block client_fd n word s v =
    let held = users_mutex-IsValid 0 s v in
    let (r, t, runs, _) =
      login-LoggedIn block client_fd n word (record s { users_mutex = 0 }) held in
    let kept = Ensures-run (login-Keeps block client_fd n word _ held) runs in
    rw (v.users_free, runs, kept.valid.users_free)
      (elim (Bool-cases (eq_ℤ r (negsuc 0))) [
        | inl wrong ↦ (closed, record t { users_mutex = 1 }, rw wrong refl, λ k. refl)
        | inr right ↦ (started, record t { users_mutex = 1 }, rw right refl, λ k. refl)
      ])

login_hello-returns :
    (client_fd : ℤ) (m : Hello) (s : Server)
    → IsValid s
    → m.got_through ≡ true
    → IsLogin m
    → (r : Accepted) × (t : Server) × (login_hello client_fd m s ≡ done r t) × GoesOn r
unfolding login_hello
login_hello-returns client_fd m s v through (text, here, ((n, named), ((word, secured), _))) =
    rw (through, here, named, secured) (login_locked-returns m.user_block client_fd n word s v)

-- Every LOGIN has a name and a password.
abbrev pub AllLogins : List Arrival → Type 0
AllLogins [] = Unit
AllLogins (a ∷ rest) = (a.hello.msg_type ≡ code MsgType.login → IsLogin a.hello) × AllLogins rest

-- A program that begins in `s` comes to an end with the result, and keeps the invariant.
abbrev Ends : M Served → Served → Server → Type 0
Ends m r s = (t : Server) × (m s ≡ done r t) × Keeps s t

-- After a round of the loop.
after_round :
    (m : M Accepted) (r : Accepted) (k : M Served) (q : Served) (s t : Server)
    → m s ≡ done r t
    → GoesOn r
    → Keeps s t
    → Ends k q t
    → Ends (m >>= λ a. unless_ended a k) q s
after_round m r k q s t runs on kept (u, ends, kept_on) =
    (u, rw (runs, on k) ends, Keeps-trans kept kept_on)

login_round-Ends :
    (client_fd : ℤ) (m : Hello) (s : Server) (k : M Served) (q : Served)
    → IsValid s
    → ((r : Accepted) (t : Server) → login_hello client_fd m s ≡ done r t → Keeps s t)
    → IsLogin m
    → ((t : Server) → IsValid t → Ends k q t)
    → (through : Bool) → m.got_through ≡ through
    → Ends
        (login_hello client_fd m >>= λ r. unless_ended r k)
        (if not through then held_up else q)
        s
login_round-Ends client_fd m s k q v keeps l rest true through =
    let (r, t, runs, on) = login_hello-returns client_fd m s v through l in
    let kept = keeps r t runs in
    after_round (login_hello client_fd m) r k q s t runs on kept (rest t kept.valid)
login_round-Ends client_fd m s k q v keeps l rest false waits =
    rw (login_hello-held_up client_fd m s waits) (s, refl, Keeps-refl s v)

round-Ends :
    (client_fd : ℤ) (m : Hello) (s : Server) (k : M Served) (q : Served)
    → IsValid s
    → (m.msg_type ≡ code MsgType.login → IsLogin m)
    → ((t : Server) → IsValid t → Ends k q t)
    → Ends (accept_client client_fd m >>= λ r. unless_ended r k) (ends_at m q) s
unfolding accept_client code
round-Ends client_fd m s k q v login rest = elim (Bool-cases (ltb_ℤ m.result (pos 0))) [
  | inl failed ↦ rw failed (s, refl, Keeps-refl s v)
  | inr passed ↦ elim (Bool-cases (eq_ℤ m.result (pos 0))) [
    | inl read ↦ elim (Bool-cases (m.msg_type == 0x10)) [
      | inl log ↦
          let keeps : (r : Accepted) (t : Server)
              → login_hello client_fd m s ≡ done r t
              → Keeps s t =
            (λ r t runs.
              let whole : accept_client client_fd m s ≡ done r t = rw (passed, read, log) runs in
              Ensures-run (accept_client-Keeps client_fd m s v login) whole) in
          rw (passed, read, log)
            (login_round-Ends client_fd m s k q v keeps (login (ground (arith, log))) rest
              m.got_through refl)
      | inr other ↦ rw (passed, read, other) (rest s v)
    ]
    | inr strange ↦ rw (passed, strange) (rest s v)
  ]
]

-- On a valid state, the rounds of the loop for any connections, each LOGIN with a name and a
-- password, lead to where the connections alone say, whoever logs in and with what answer: the loop
-- has returned at an interrupt or at a header that cannot be read, has ended the process where
-- `accept` failed, waits at the first LOGIN that does not get `buffer_lock` and its bytes, and else
-- waits for the next connection. No login stops at a NULL pointer, a semaphore, a buffer or the range
-- of `int`; the state is valid, and the sum of all balances and the semaphores are what they were.
pub serve-returns :
    (xs : List Arrival) (s : Server)
    → IsValid s
    → AllLogins xs
    → (t : Server) × (serve xs s ≡ done (outcome xs) t) × Keeps s t
unfolding serve
serve-returns [] s v logins = (s, refl, Keeps-refl s v)
serve-returns (a ∷ xs) s v (login, logins) = elim (Bool-cases a.int_flag) [
  | inl interrupted ↦ rw interrupted (s, refl, Keeps-refl s v)
  | inr going ↦ elim (Bool-cases (ltb_ℤ a.client_fd (pos 0))) [
    | inl failed ↦ rw (going, failed) (s, refl, Keeps-refl s v)
    | inr accepted ↦
        rw (going, accepted)
          (round-Ends a.client_fd a.hello s (serve xs) (outcome xs) v login
            λ t valid. serve-returns xs t valid logins)
  ]
]
