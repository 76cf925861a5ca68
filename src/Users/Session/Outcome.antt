-- ===== src/Users/Session/Outcome.antt =====
-- What `login` and `logout` of src/helpers.c come to.
use zbid.Base.{
  ◌≡◌, refl, ap, ◌∙◌, true, false, Option, none, some, [], ◌∷◌, ◌++◌, append_assoc, ℕ, ℤ, pos,
  negsuc, get_elem?, get_elem?-set_self, set, set-set, str_eq, Bool-cases, inl, inr,
}
use zbid.LinkedList.Contents.{insert_at_tail}
use zbid.Server.{CString, User, Server}
use zbid.Server.Protocol.{MsgType}
use zbid.Server.Monad.{done, strcmp, ◌>>◌}
use zbid.Users.Find.{find_username, find_user_struct, find_user_position}
use zbid.Users.Find.Known.{find_user_struct-names, get_elem?-of_found, names}
use zbid.Users.Total.{find_user_struct-set}
use zbid.Users.Session.{new_user, login, login_existing, logout, logout_found}
use zbid.Auctions.Bid.Leading.{answer}
use zbid.Invariant.{IsValidAt}
use zbid.Invariant.Session.{search-done, password-set}

-- The state with one more answer.
abbrev pub answered : Server → ℤ → MsgType → Server
answered s fd type = record s { sent = s.sent ++ answer fd type ∷ [] }

abbrev pub connected : User → ℤ → User
connected u fd = record u { login_flag = true; fd = fd }

-- The four ways in which a login ends: its result, and the state that it leaves.
pub data LoggedIn (block : User) (fd : ℤ) (n word : CString) (s : Server)
    : ℤ → Server → Type 0 where
  new :
      find_user_struct (some n) s.users ≡ some none
      → LoggedIn block fd n word s (pos 0) (
          answered
            (record s { users = insert_at_tail s.users (new_user block fd (some n) (some word)) })
            fd
            MsgType.ok)
  in_use :
      {i : ℕ} {u : User}
      → find_user_struct (some n) s.users ≡ some (some i)
      → get_elem? s.users i ≡ some u
      → u.login_flag ≡ true
      → LoggedIn block fd n word s (pos 0) (answered s fd MsgType.eusrlgdin)
  back :
      {i : ℕ} {u : User} {own : CString}
      → find_user_struct (some n) s.users ≡ some (some i)
      → get_elem? s.users i ≡ some u
      → u.login_flag ≡ false
      → u.password ≡ some own
      → str_eq word.text own.text ≡ true
      → LoggedIn block fd n word s
          (pos 0)
          (answered (record s { users = set s.users i (connected u fd) }) fd MsgType.ok)
  wrong :
      {i : ℕ} {u : User} {own : CString}
      → find_user_struct (some n) s.users ≡ some (some i)
      → get_elem? s.users i ≡ some u
      → u.login_flag ≡ false
      → u.password ≡ some own
      → str_eq word.text own.text ≡ false
      → LoggedIn block fd n word s (negsuc 0) (answered s fd MsgType.ewrngpwd)

-- In a valid state, a login with a name and a password always returns, and in one of four ways: a
-- name that nobody has makes an account and is answered OK; a user who is logged in stays as it is,
-- with EUSRLGDIN and the result 0; the right password logs the user in on the new descriptor, with
-- OK; the wrong one changes nothing, with EWRNGPWD and the result -1. Nothing else changes.
pub login-LoggedIn :
    {m : ℕ} (block : User) (fd : ℤ) (n word : CString) (s : Server)
    → IsValidAt m s
    → (r : ℤ) × (t : Server) × (login block fd (some n) (some word) s ≡ done r t)
      × LoggedIn block fd n word s r t
unfolding login login_existing strcmp
login-LoggedIn block fd n word s v = go (search-done n (names s.users) v.named)
  where
    go :
        ((r : Option ℕ) × (find_user_position (some n) (names s.users) ≡ some r))
        → (r : ℤ) × (t : Server) × (login block fd (some n) (some word) s ≡ done r t)
          × LoggedIn block fd n word s r t
    go (none, e) =
        let found = find_user_struct-names (some n) s.users ∙ e in (_, _, rw found refl, new found)
    go (some i, e) =
        let found = find_user_struct-names (some n) s.users ∙ e in
        let (u, at) = get_elem?-of_found (some n) s.users i e in
        let (own, has) = password-set s.users i u at v.secured in
        elim (Bool-cases u.login_flag) [
          | inl on ↦ (_, _, rw (found, at, on) refl, in_use found at on)
          | inr off ↦ elim (Bool-cases (str_eq word.text own.text)) [
            | inl right ↦ (_, _, rw (found, at, off, has, right) refl, back found at off has right)
            | inr other ↦ (_, _, rw (found, at, off, has, other) refl, wrong found at off has other)
          ]
        ]

-- A user who logs out and logs in again, with the name and the password, on any descriptor, is back:
-- both are answered OK, and the balance, the auctions and all else are what they were.
pub logout-login :
    (block : User) (fd fd' : ℤ) (n word own : CString) (i : ℕ) (u : User) (s : Server)
    → find_username fd s.users ≡ some i
    → find_user_struct (some n) s.users ≡ some (some i)
    → get_elem? s.users i ≡ some u
    → u.password ≡ some own
    → str_eq word.text own.text ≡ true
    → (do logout fd; login block fd' (some n) (some word)) s
      ≡ done (pos 0) (record s {
        users = set s.users i (connected u fd');
        sent = s.sent ++ answer fd MsgType.ok ∷ answer fd' MsgType.ok ∷ [];
      })
unfolding logout logout_found login login_existing strcmp
logout-login block fd fd' n word own i u s by_fd by_name at has right =
    let out = record u { login_flag = false } in
    rw
      (
        by_fd,
        at,
        find_user_struct-set (some n) s.users i u out (some (some i)) at refl by_name,
        get_elem?-set_self s.users i u out at,
      )
      (simp
        (has, right, append_assoc s.sent (answer fd MsgType.ok ∷ []) (answer fd' MsgType.ok ∷ []))
        (ap
          (λ us. done (pos 0) (record s {
            users = us;
            sent = s.sent ++ answer fd MsgType.ok ∷ answer fd' MsgType.ok ∷ [];
          }))
          (set-set s.users i _ _)))
