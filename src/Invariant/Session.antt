-- ===== src/Invariant/Session.antt =====
-- `login` and `logout` of src/helpers.c and the invariant.
use zbid.Base.{
  ℕ, zero, suc, ◌≡◌, refl, subst, Bool, true, false, Option, none, some, List, [], ◌∷◌, arith, inl,
  inr, get_elem?, set, ℤ, All, All-append, All-set, Bool-cases, Option-cases, str_eq,
}
use zbid.LinkedList.Contents.{insert_at_tail}
use zbid.Server.{CString, CharPtr, User, Server}
use zbid.Server.Monad.{strcmp}
use zbid.Server.Monad.Ensures.{Ensures, returns}
use zbid.Users.Find.{find_username, find_user_position, shift}
use zbid.Users.Find.Known.{
  names, passwords, names-append, passwords-append, find_user_struct-names, get_elem?-of_found,
}
use zbid.Users.Total.{total-set_same, names-set, passwords-set, total-append_new}
use zbid.Users.Session.{new_user, login_existing, login, logout}
use zbid.Auctions.Sound.{Holdings}
use zbid.Invariant.{IsNonNull, IsValid, IsValidAt, Keeps, KeepsAt}
use zbid.Invariant.Lookup.{find_username-at}
use zbid.Invariant.Update.{sent-Keeps, Keeps-trans, Keeps-refl, Listed-append}

-- A user is written that keeps name, password and balance.
store_user-Keeps :
    {m : ℕ} (i : ℕ) (u w : User) (s : Server)
    → IsValidAt m s
    → get_elem? s.users i ≡ some u
    → w.username ≡ u.username
    → w.password ≡ u.password
    → w.balance ≡ u.balance
    → (Holdings s.heap u → Holdings s.heap w)
    → KeepsAt m s (record s { users = set s.users i w })
store_user-Keeps i u w s v at name word bal holds =
    let same : names (set s.users i w) ≡ names s.users = names-set s.users i u w at name in
    record {
      valid = record {
        listed = rw same v.listed;
        named = rw same v.named;
        secured = rw (passwords-set s.users i u w at word) v.secured;
        held = All-set (Holdings s.heap) s.users i u w at holds v.held;
        users_free = v.users_free;
        numbered = v.numbered;
        ids_free = v.ids_free;
      };
      money = total-set_same s.users i u w at bal;
      mutex = refl;
    }

-- Where every name is set, the search for one ends.
pub search-done :
    (n : CString) (ns : List CharPtr)
    → All IsNonNull ns
    → (r : Option ℕ) × (find_user_position (some n) ns ≡ some r)
unfolding find_user_position strcmp
search-done n [] named = (none, refl)
search-done n (c ∷ ns) ((m, e), named) =
    let (r, found) = search-done n ns named in
    elim (Bool-cases (str_eq n.text m.text)) [
      | inl hit ↦ (some 0, rw (e, hit) refl)
      | inr miss ↦ (shift r, rw (e, miss, found) refl)
    ]

pub password-set :
    (us : List User) (i : ℕ) (u : User)
    → get_elem? us i ≡ some u
    → All IsNonNull (passwords us)
    → IsNonNull u.password
password-set [] i u at secured = cc
password-set (w ∷ us) zero u at (sw, secured) =
    let e : w ≡ u = (ground arith) in subst (λ x. IsNonNull x.password) e sw
password-set (w ∷ us) (suc i) u at (sw, secured) = password-set us i u at secured

-- The passwords are compared.
pub strcmp-done :
    (word : CString) (c : CharPtr) → IsNonNull c → (b : Bool) × (strcmp (some word) c ≡ some b)
unfolding strcmp
strcmp-done word c (own, e) = (str_eq word.text own.text, rw e refl)

login_existing-Keeps :
    {m : ℕ} (fd : ℤ) (i : ℕ) (u : User) (word : CString) (s : Server)
    → IsValidAt m s
    → get_elem? s.users i ≡ some u
    → Ensures (λ _ t. KeepsAt m s t) (login_existing fd i (some word) s)
unfolding login_existing
login_existing-Keeps fd i u word s v at =
    let own = password-set s.users i u at v.secured in
    let kept =
      store_user-Keeps i u (record u { login_flag = true; fd = fd }) s v at refl refl refl
        (λ h. h) in
    let (right, compared) = strcmp-done word u.password own in
    elim (Bool-cases u.login_flag) [
      | inl in_use ↦ simp (at, in_use) (returns (sent-Keeps s _ v))
      | inr free ↦ elim (Bool-cases right) [
        | inl same ↦
            simp (at, free, compared, same) (returns (Keeps-trans kept (sent-Keeps _ _ kept.valid)))
        | inr other ↦ simp (at, free, compared, other) (returns (sent-Keeps s _ v))
      ]
    ]

-- The state with a new user.
new_user-Keeps :
    {m : ℕ} (block : User) (fd : ℤ) (n word : CString) (s : Server)
    → IsValidAt m s
    → KeepsAt m s
        (record s { users = insert_at_tail s.users (new_user block fd (some n) (some word)) })
unfolding new_user
new_user-Keeps block fd n word s v = record {
  valid = record {
    listed =
        rw names-append (Listed-append (some n ∷ []) s.heap (names s.users) s.auctions v.listed);
    named =
        rw names-append
          (All-append IsNonNull (names s.users) (some n ∷ []) v.named ((n, refl), tt));
    secured =
        rw passwords-append
          (All-append IsNonNull (passwords s.users) (some word ∷ []) v.secured ((word, refl), tt));
    held = All-append (Holdings s.heap) s.users _ v.held ((tt, tt), tt);
    users_free = v.users_free;
    numbered = v.numbered;
    ids_free = v.ids_free;
  };
  money = total-append_new s.users _ refl;
  mutex = refl;
}

-- A login with a name and a password dereferences no NULL pointer and waits for no semaphore, and
-- it leaves the invariant and the sum of all balances, whatever it answers.
pub login-Keeps :
    {m : ℕ} (block : User) (fd : ℤ) (n word : CString) (s : Server)
    → IsValidAt m s
    → Ensures (λ _ t. KeepsAt m s t) (login block fd (some n) (some word) s)
unfolding login
login-Keeps {m} block fd n word s v = go (search-done n (names s.users) v.named)
  where
    go :
        ((r : Option ℕ) × (find_user_position (some n) (names s.users) ≡ some r))
        → Ensures (λ _ t. KeepsAt m s t) (login block fd (some n) (some word) s)
    go (none, found) =
        let kept = new_user-Keeps block fd n word s v in
        rw (find_user_struct-names, found) (returns (Keeps-trans kept (sent-Keeps _ _ kept.valid)))
    go (some i, found) =
        let (u, at) = get_elem?-of_found (some n) s.users i found in
        rw (find_user_struct-names, found) (login_existing-Keeps fd i u word s v at)

-- A logout keeps the invariant and the sum of all balances, also where no user has the descriptor.
pub logout-Keeps : (fd : ℤ) (s : Server) → IsValid s → Ensures (λ _ t. Keeps s t) (logout fd s)
unfolding logout
logout-Keeps fd s v = elim (Option-cases (find_username fd s.users)) [
  | inl nobody ↦ rw nobody (returns (Keeps-refl s v))
  | inr (i, found) ↦
      let (u, at, _) = find_username-at fd s.users i found in
      let kept =
        store_user-Keeps i u (record u { login_flag = false }) s v at refl refl refl (λ h. h) in
      rw (found, at) (returns (Keeps-trans kept (sent-Keeps _ _ kept.valid)))
]
