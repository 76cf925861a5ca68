-- ===== src/Users/Find/Known.antt =====
-- The names of the users, and what the searches through them reach.
use zbid.Base.{◌++◌, ℕ, zero, suc, ◌≡◌, refl, some, List, [], ◌∷◌, arith, get_elem?, ap, ℤ}
use zbid.Server.{CharPtr, User}
use zbid.Server.Monad.{strcmp}
use zbid.Users.Find.{match_or, find_user_struct, find_user_position}

abbrev pub names : List User → List CharPtr
names [] = []
names (u ∷ us) = u.username ∷ names us

abbrev pub fds : List User → List ℤ
fds [] = []
fds (u ∷ us) = u.fd ∷ fds us

abbrev pub passwords : List User → List CharPtr
passwords [] = []
passwords (u ∷ us) = u.password ∷ passwords us

pub find_user_struct-names :
    (c : CharPtr) (us : List User) → find_user_struct c us ≡ find_user_position c (names us)
unfolding find_user_struct find_user_position
find_user_struct-names c [] = refl
find_user_struct-names c (u ∷ us) =
    ap (match_or (strcmp c u.username)) (find_user_struct-names c us)

-- The searches by name reach `c` among the names, and meet no NULL before.
abbrev pub Knows : List CharPtr → CharPtr → Type 0
Knows ns c = (i : ℕ) × (find_user_position c ns ≡ some (some i))

pub get_elem?-of_found :
    (c : CharPtr) (us : List User) (i : ℕ)
    → find_user_position c (names us) ≡ some (some i)
    → (u : User) × (get_elem? us i ≡ some u)
unfolding find_user_position
get_elem?-of_found c [] i h = cc
get_elem?-of_found c (u ∷ us) zero h = (u, refl)
get_elem?-of_found c (u ∷ us) (suc i) h = get_elem?-of_found c us i (tail-found h)
  where
    tail-found :
        match_or (strcmp c u.username) (find_user_position c (names us)) ≡ some (some (suc i))
        → find_user_position c (names us) ≡ some (some i)
    tail-found e = ground arith

pub names-append : (us vs : List User) → names (us ++ vs) ≡ names us ++ names vs
names-append [] vs = refl
names-append (u ∷ us) vs = rw (names-append us vs)

pub passwords-append : (us vs : List User) → passwords (us ++ vs) ≡ passwords us ++ passwords vs
passwords-append [] vs = refl
passwords-append (u ∷ us) vs = rw (passwords-append us vs)
