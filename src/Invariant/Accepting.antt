-- ===== src/Invariant/Accepting.antt =====
-- A new connection in `run_server` of src/finalsample.c and the invariant.
use zbid.Base.{
  ◌≡◌, refl, false, some, inl, inr, arith, ◌==◌, Bool-cases, ℤ, pos, negsuc, eq_ℤ, ltb_ℤ, Text,
}
use zbid.Server.{CString, User, Server}
use zbid.Server.Protocol.{MsgType, code}
use zbid.Server.Monad.{done}
use zbid.Server.Monad.Ensures
use zbid.Server.Monad.Ensures.{Ensures, returns}
use zbid.Jobs.Block.{c_string, filled}
use zbid.Jobs.Accept.{Hello, held_up, login_locked, login_hello, accept_client}
use zbid.Invariant.{IsValid, Keeps}
use zbid.Invariant.Update.{Keeps-refl}
use zbid.Invariant.Session.{login-Keeps}
use zbid.Invariant.Processing.{users_mutex-IsValid, HasFields}

login_locked-Keeps :
    (block : User) (client_fd : ℤ) (n word : CString) (s : Server)
    → IsValid s
    → Ensures (λ _ t. Keeps s t) (login_locked block client_fd (some n) (some word) s)
unfolding login_locked
login_locked-Keeps block client_fd n word s v =
    let locked = record s { users_mutex = 0 } in
    rw v.users_free (
      Ensures.bind (login-Keeps block client_fd n word locked (users_mutex-IsValid 0 s v))
        λ r t kept.
          let after : Keeps (record s { users_mutex = 1 }) (record t { users_mutex = 1 }) = record {
            valid = users_mutex-IsValid 1 t kept.valid;
            money = kept.money;
            mutex = kept.mutex;
          } in
          rw kept.valid.users_free (elim (Bool-cases (eq_ℤ r (negsuc 0))) [
            | inl wrong ↦ rw wrong (returns after)
            | inr right ↦ rw right (returns after)
          ]))

-- A LOGIN message holds a name and a password.
abbrev pub IsLogin : Hello → Type 0
IsLogin m =
    (t : Text) × (c_string (filled m.msg_len m.received m.slack) ≡ some t)
    × HasFields 2 m.login_buffer t

-- The loop waits where the LOGIN is not read.
pub login_hello-held_up :
    (client_fd : ℤ) (m : Hello) (s : Server)
    → m.got_through ≡ false
    → login_hello client_fd m s ≡ done held_up s
unfolding login_hello
login_hello-held_up client_fd m s waits = rw waits refl

login_hello-Keeps :
    (client_fd : ℤ) (m : Hello) (s : Server)
    → IsValid s
    → IsLogin m
    → Ensures (λ _ t. Keeps s t) (login_hello client_fd m s)
unfolding login_hello
login_hello-Keeps client_fd m s v (text, here, (name, (password, _))) =
    let (n, named) = name in
    let (word, secured) = password in
    elim (Bool-cases m.got_through) [
      | inl through ↦
          rw (through, here, named, secured) (login_locked-Keeps m.user_block client_fd n word s v)
      | inr waits ↦ rw waits (returns (Keeps-refl s v))
    ]

-- A new connection, whose first message holds a name and a password where it is a LOGIN, reads no
-- NULL pointer and waits for no semaphore in a valid state; where it returns, the state is valid and
-- the sum of all balances and the semaphores are unchanged.
pub accept_client-Keeps :
    (client_fd : ℤ) (m : Hello) (s : Server)
    → IsValid s
    → (m.msg_type ≡ code MsgType.login → IsLogin m)
    → Ensures (λ _ t. Keeps s t) (accept_client client_fd m s)
unfolding accept_client
accept_client-Keeps client_fd m s v readable = elim (Bool-cases (ltb_ℤ m.result (pos 0))) [
  | inl failed ↦ rw failed (returns (Keeps-refl s v))
  | inr passed ↦ elim (Bool-cases (eq_ℤ m.result (pos 0))) [
    | inl read ↦ elim (Bool-cases (m.msg_type == 0x10)) [
      | inl log ↦
          rw (passed, read, log)
            (login_hello-Keeps client_fd m s v (readable (ground (arith, log))))
      | inr other ↦ rw (passed, read, other) (returns (Keeps-refl s v))
    ]
    | inr strange ↦ rw (passed, strange) (returns (Keeps-refl s v))
  ]
]
