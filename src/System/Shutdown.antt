-- ===== src/System/Shutdown.antt =====
-- `sigint_handler` of src/finalsample.c.
use zbid.Base.{◌≡◌, refl, map, true, false, Bool, List, [], ◌∷◌, ◌++◌, ℤ}
use zbid.Server.{User, Server}
use zbid.Server.Monad.{
  M, pure, done, ◌>>=◌, ◌>>◌, gets, modify, Semaphore, users_mutex, sem_wait, sem_post,
}
use zbid.Users.Find.Known.{fds}

-- What the handler frees, and the semaphores that it destroys; nothing else uses `sbufMutex`.
pub data Global : Type 0 where
  login_buffer job_buffer auction_file : Global

pub data Mutex : Type 0 where
  sbuf_mutex : Mutex
  shared : Semaphore → Mutex

-- What it does outside the state of the server: `intFlag`, the descriptors that it closes, the
-- blocks that it frees and the semaphores that it destroys, each in order.
pub record Shut : Type 0 where
  pub int_flag : Bool
  pub closed : List ℤ
  pub freed : List Global
  pub destroyed : List Mutex

-- The loop over the users: each is logged out and its descriptor is closed.
unfoldable pub log_out_all : List User → List User × List ℤ
log_out_all [] = ([], [])
log_out_all (u ∷ us) =
    let (out, fds) = log_out_all us in (record u { login_flag = false } ∷ out, u.fd ∷ fds)

-- `sigint_handler`.
unfoldable pub sigint_handler : ℤ → M Shut
unfolding log_out_all sem_wait sem_post
sigint_handler listen_fd = do
  sem_wait users_mutex
  users ← gets (λ s. s.users)
  let (out, fds) = log_out_all users
  modify (λ s. record s { users = out })
  sem_post users_mutex
  pure (record {
    int_flag = true;
    closed = fds ++ listen_fd ∷ [];
    freed = login_buffer ∷ job_buffer ∷ auction_file ∷ [];
    destroyed =
        sbuf_mutex
        ∷ shared users_mutex
        ∷ shared Semaphore.auctions_mutex
        ∷ shared Semaphore.auction_id_mutex
        ∷ [];
  })

-- The user is logged out and keeps everything else.
abbrev pub offline : User → User
offline u = record u { login_flag = false }

-- What is left of the server, after the descriptors of the users are closed.
abbrev pub shut_down : List ℤ → ℤ → Shut
shut_down fds listen_fd = record {
  int_flag = true;
  closed = fds ++ listen_fd ∷ [];
  freed = login_buffer ∷ job_buffer ∷ auction_file ∷ [];
  destroyed =
      sbuf_mutex
      ∷ shared users_mutex
      ∷ shared Semaphore.auctions_mutex
      ∷ shared Semaphore.auction_id_mutex
      ∷ [];
}

log_out_all-map : (us : List User) → log_out_all us ≡ (map offline us, fds us)
unfolding log_out_all
log_out_all-map [] = refl
log_out_all-map (u ∷ us) = rw (log_out_all-map us) refl

-- Where the semaphore of the users is free, the handler returns: every user is logged out and keeps
-- everything else, the semaphore is free again, and the descriptors of all users are closed, in the
-- order of the list, the one that the server listens at last; three blocks are freed and all four
-- semaphores destroyed.
sigint_handler-offline :
    (listen_fd : ℤ) (s : Server)
    → s.users_mutex ≡ 1
    → sigint_handler listen_fd s
      ≡ done (shut_down (fds s.users) listen_fd) (record s { users = map offline s.users })
unfolding sigint_handler
sigint_handler-offline listen_fd s free = rw (free, log_out_all-map s.users) refl
