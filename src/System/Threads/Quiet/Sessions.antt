-- ===== src/System/Threads/Quiet/Sessions.antt =====
-- The pieces of the sessions, the ticker and the jobs leave the semaphores alone.
use zbid.Base.{
  refl, Option, none, some, [], ℕ, ℤ, pos, negsuc, length, leb, ◌+◌, ltb, if◌then◌else◌,
}
use zbid.LinkedList.Contents.{insert_at_tail}
use zbid.Server.{CharPtr, Address, User, Server}
use zbid.Server.Protocol.{MsgType}
use zbid.Server.Monad.{M, done, strcmp, and_then, reply}
use zbid.Users.Find.{find_username, find_user_struct}
use zbid.Users.Session.{login_existing, login, logout_found, logout, new_user}
use zbid.Auctions.Close.{user_named}
use zbid.Jobs.Process.{Blocks, Job, copy_message}
use zbid.Ticker.{count_down}
use zbid.System.Threads.Pieces.{next_of, next_piece}
use zbid.System.Threads.Quiet
use zbid.System.Threads.Quiet.{
  Quiet, back, ended, branch, returned, deref-Quiet, load_auction-Quiet, load_user-Quiet,
  store_auction-Quiet, store_user-Quiet, add_int-Quiet, sub_int-Quiet, strcat-Quiet, wr_msg-Quiet,
  reply-Quiet, reply_with-Quiet, client_user-Quiet,
}

user_named-Quiet : (c : CharPtr) (s : Server) → Quiet s (user_named c s)
unfolding user_named
user_named-Quiet c s =
    Quiet.bind (deref-Quiet (find_user_struct c s.users) s) λ r t. deref-Quiet r t

logout_found-Quiet : (fd : ℤ) (r : Option ℕ) (s : Server) → Quiet s (logout_found fd r s)
unfolding logout_found
logout_found-Quiet fd none s = returned tt s
logout_found-Quiet fd (some i) s =
    Quiet.bind (load_user-Quiet i s)
      λ u t. Quiet.bind (store_user-Quiet i _ t) λ _ t. reply-Quiet fd MsgType.ok t

pub logout-Quiet : (fd : ℤ) (s : Server) → Quiet s (logout fd s)
unfolding logout
logout-Quiet fd s = logout_found-Quiet fd (find_username fd s.users) s

login_existing-Quiet :
    (fd : ℤ) (i : ℕ) (word : CharPtr) (s : Server) → Quiet s (login_existing fd i word s)
unfolding login_existing
login_existing-Quiet fd i word s = Quiet.bind (load_user-Quiet i s) λ u t.
    branch u.login_flag _ _
      (Quiet.bind (reply-Quiet fd MsgType.eusrlgdin t) λ _ q. returned (pos 0) q)
      (Quiet.bind (deref-Quiet (strcmp word u.password) t) λ same t.
        branch same _ _
          (Quiet.bind (store_user-Quiet i _ t)
            λ _ t. Quiet.bind (reply-Quiet fd MsgType.ok t) λ _ q. returned (pos 0) q)
          (Quiet.bind (reply-Quiet fd MsgType.ewrngpwd t) λ _ q. returned (negsuc 0) q))

pub login-Quiet :
    (block : User) (fd : ℤ) (name word : CharPtr) (s : Server)
    → Quiet s (login block fd name word s)
unfolding login
login-Quiet block fd name word s = Quiet.bind (deref-Quiet (find_user_struct name s.users) s) go
  where
    go :
        (r : Option ℕ) (t : Server)
        → let m : M ℤ = elim r [
          | some i ↦ login_existing fd i word
          | none ↦ (λ q.
              and_then
                (reply fd MsgType.ok
                  (record q { users = insert_at_tail q.users (new_user block fd name word) }))
                (λ _. done (pos 0)))
        ] in
          Quiet t (m t)
    go (some i) t = login_existing-Quiet fd i word t
    go none t = back (record { users = refl; auctions = refl; ids = refl })

pub count_down-Quiet : (p : Address) (s : Server) → Quiet s (count_down p s)
unfolding count_down
count_down-Quiet p s = Quiet.bind (load_auction-Quiet p s) λ a t.
    Quiet.bind (sub_int-Quiet a.duration (pos 1) t)
      λ d t. Quiet.bind (store_auction-Quiet p _ t) λ _ q. returned d q

pub next_piece-Quiet : (p : Address) (s : Server) → Quiet s (next_piece p s)
unfolding next_piece
next_piece-Quiet p s = deref-Quiet (next_of p s.auctions) s

pub copy_message-Quiet : (b : Blocks) (j : Job) (s : Server) → Quiet s (copy_message b j s)
unfolding copy_message
copy_message-Quiet b j s = Quiet.bind (deref-Quiet (b.usable j.job_msg_length) s) λ room t.
    let text = if ltb 0 (length j.job_buffer) then j.job_buffer else [] in
    branch (leb (length text + 1) room) _ _ (returned text t) (ended tt)
