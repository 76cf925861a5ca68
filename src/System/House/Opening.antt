-- ===== src/System/House/Opening.antt =====
-- `login` and `logout` of src/helpers.c, and a new connection in `run_server` of
-- src/finalsample.c: the accounts that they open.
use zbid.Base.{
  ◌≡◌, refl, ◌∙◌, true, false, ℕ, Bool-cases, Option-cases, inl, inr, Option, none, some, get_elem?,
  set, ℤ, negsuc, eq_ℤ,
}
use zbid.Server.{CString, User, Server}
use zbid.Server.Monad.Ensures
use zbid.Server.Monad.Ensures.{Ensures, returns}
use zbid.Users.Find.{find_username, find_user_position}
use zbid.Users.Find.Known.{names, find_user_struct-names, get_elem?-of_found}
use zbid.Users.Session.{new_user, login_existing, login, logout}
use zbid.Jobs.Accept.{Hello, login_locked, login_hello}
use zbid.Invariant.{IsValid, IsValidAt}
use zbid.Invariant.Lookup.{find_username-at}
use zbid.Invariant.Session.{search-done, password-set, strcmp-done}
use zbid.Invariant.Processing.{users_mutex-IsValid}
use zbid.Invariant.Accepting.{IsLogin}
use zbid.System.House.{house, lots_of, open_account}
use zbid.System.House.Accounts.{accounts_of-set_same, accounts_of-append, holds-found, holds-missed}

-- A user is written that keeps name and balance.
house-set :
    (s : Server) (i : ℕ) (u w : User)
    → get_elem? s.users i ≡ some u
    → w.username ≡ u.username
    → w.balance ≡ u.balance
    → house (record s { users = set s.users i w }) ≡ house s
house-set s i u w at name balance = λ j. record {
  lots = lots_of s.heap s.auctions;
  accounts = accounts_of-set_same s.users i u w at name balance j;
  last_id = s.auction_id;
}

login_existing-house :
    {m : ℕ} (fd : ℤ) (i : ℕ) (u : User) (word : CString) (s : Server)
    → IsValidAt m s
    → get_elem? s.users i ≡ some u
    → Ensures (λ _ t. house t ≡ house s) (login_existing fd i (some word) s)
unfolding login_existing
login_existing-house fd i u word s v at =
    let (right, compared) = strcmp-done word u.password (password-set s.users i u at v.secured) in
    elim (Bool-cases u.login_flag) [
      | inl in_use ↦ simp (at, in_use) (returns refl)
      | inr free ↦ elim (Bool-cases right) [
        | inl same ↦
            simp (at, free, compared, same)
              (returns (house-set s i u (record u { login_flag = true; fd = fd }) at refl refl))
        | inr other ↦ simp (at, free, compared, other) (returns refl)
      ]
    ]

login-house :
    {m : ℕ} (block : User) (fd : ℤ) (n word : CString) (s : Server)
    → IsValidAt m s
    → Ensures
        (λ _ t. house t ≡ open_account (some n) (house s))
        (login block fd (some n) (some word) s)
unfolding login new_user
login-house block fd n word s v = go (search-done n (names s.users) v.named)
  where
    go :
        ((r : Option ℕ) × (find_user_position (some n) (names s.users) ≡ some r))
        → Ensures
            (λ _ t. house t ≡ open_account (some n) (house s))
            (login block fd (some n) (some word) s)
    go (none, found) =
        rw (holds-missed n s.users (find_user_struct-names (some n) s.users ∙ found)) (
          rw (find_user_struct-names, found)
            (returns λ j. record {
              lots = lots_of s.heap s.auctions;
              accounts = accounts_of-append s.users (new_user block fd (some n) (some word)) j;
              last_id = s.auction_id;
            }))
    go (some i, found) =
        let (u, at) = get_elem?-of_found (some n) s.users i found in
        rw (holds-found n s.users i (find_user_struct-names (some n) s.users ∙ found))
          (rw (find_user_struct-names, found) (login_existing-house fd i u word s v at))

-- A LOGIN message opens an account for the name in it, where nobody has that name.
pub login_hello-house :
    (client_fd : ℤ) (m : Hello) (n : CString) (s : Server)
    → IsValid s
    → m.got_through ≡ true
    → (l : IsLogin m) → l.2.0.0 ≡ n
    → Ensures (λ _ t. house t ≡ open_account (some n) (house s)) (login_hello client_fd m s)
unfolding login_hello login_locked
login_hello-house client_fd m n s v through (text, here, (name, (password, _))) same =
    let (w, named) = name in
    let (word, secured) = password in
    rw (through, here, named, secured, v.users_free, ← same)
      (Ensures.bind
        (login-house m.user_block client_fd w word (record s { users_mutex = 0 })
          (users_mutex-IsValid 0 s v))
        λ r t opened. elim (Bool-cases (eq_ℤ r (negsuc 0))) [
          | inl wrong ↦ rw wrong (returns opened)
          | inr right ↦ rw right (returns opened)
        ])

-- A logout changes no balance and no auction.
pub logout-house : (fd : ℤ) (s : Server) → Ensures (λ _ t. house t ≡ house s) (logout fd s)
unfolding logout
logout-house fd s = elim (Option-cases (find_username fd s.users)) [
  | inl nobody ↦ rw nobody (returns refl)
  | inr (i, found) ↦
      let (u, at, _) = find_username-at fd s.users i found in
      rw (found, at) (returns (house-set s i u (record u { login_flag = false }) at refl refl))
]
