-- ===== src/Users/Total.antt =====
-- The sum of all balances, and what a write of one user changes.
use zbid.Base.{
  ap, sym, ◌∙◌, Option, ℕ, zero, suc, ◌≡◌, refl, some, List, [], ◌∷◌, ◌++◌, arith, get_elem?, set,
  ℤ, pos, ◌+ℤ◌, int_laws,
}
use zbid.Server.{CharPtr, User}
use zbid.Users.Find.{find_user_struct, find_user_position}
use zbid.Users.Find.Known.{names, fds, passwords, find_user_struct-names}

unfoldable pub total : List User → ℤ
total [] = pos 0
total (u ∷ us) = u.balance +ℤ total us

pub total-set :
    (us : List User) (i : ℕ) (u v : User)
    → get_elem? us i ≡ some u
    → total (set us i v) +ℤ u.balance ≡ total us +ℤ v.balance
unfolding total
total-set [] i u v h = cc
total-set (w ∷ us) zero u v h = grind int_laws
total-set (w ∷ us) (suc i) u v h = grind (int_laws, total-set us i u v h)

pub total-append_new :
    (us : List User) (v : User) → v.balance ≡ pos 0 → total (us ++ v ∷ []) ≡ total us
unfolding total
total-append_new [] v h = rw h (omega int_laws)
total-append_new (u ∷ us) v h = rw (total-append_new us v h)

pub names-set :
    (us : List User) (i : ℕ) (u v : User)
    → get_elem? us i ≡ some u
    → v.username ≡ u.username
    → names (set us i v) ≡ names us
names-set [] i u v h e = refl
names-set (w ∷ us) zero u v h e = ground arith
names-set (w ∷ us) (suc i) u v h e = rw (names-set us i u v h e)

pub fds-set :
    (us : List User) (i : ℕ) (u v : User)
    → get_elem? us i ≡ some u
    → v.fd ≡ u.fd
    → fds (set us i v) ≡ fds us
fds-set [] i u v h e = refl
fds-set (w ∷ us) zero u v h e = ground arith
fds-set (w ∷ us) (suc i) u v h e = rw (fds-set us i u v h e)

pub passwords-set :
    (us : List User) (i : ℕ) (u v : User)
    → get_elem? us i ≡ some u
    → v.password ≡ u.password
    → passwords (set us i v) ≡ passwords us
passwords-set [] i u v h e = refl
passwords-set (w ∷ us) zero u v h e = ground arith
passwords-set (w ∷ us) (suc i) u v h e = rw (passwords-set us i u v h e)

-- A write that keeps the balance keeps the sum.
pub total-set_same :
    (us : List User) (i : ℕ) (u v : User)
    → get_elem? us i ≡ some u
    → v.balance ≡ u.balance
    → total (set us i v) ≡ total us
unfolding total
total-set_same [] i u v h e = refl
total-set_same (w ∷ us) zero u v h e = ground arith
total-set_same (w ∷ us) (suc i) u v h e = ap (λ t. w.balance +ℤ t) (total-set_same us i u v h e)

-- A search by name ends where it did when a user is rewritten who keeps the name.
pub find_user_struct-set :
    (c : CharPtr) (us : List User) (i : ℕ) (u v : User) (r : Option (Option ℕ))
    → get_elem? us i ≡ some u
    → v.username ≡ u.username
    → find_user_struct c us ≡ r
    → find_user_struct c (set us i v) ≡ r
find_user_struct-set c us i u v r at same found =
    find_user_struct-names c (set us i v)
    ∙ ap (find_user_position c) (names-set us i u v at same)
    ∙ sym (find_user_struct-names c us)
    ∙ found
