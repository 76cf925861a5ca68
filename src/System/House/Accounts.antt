-- ===== src/System/House/Accounts.antt =====
-- The balances by user, when one is rewritten.
use zbid.Base.{
  ◌≡◌, refl, ap, sym, Bool-cases, ◌⊎◌, inl, inr, true, false, Option, none, some, List, [], ◌∷◌, ℕ,
  suc, get_elem?, set, ℤ, str_eq,
}
use mathlib.Core.Option.{some-injective}
use zbid.Server.{CString, CharPtr, User}
use zbid.Server.Monad.{strcmp}
use zbid.Users.Find.{match_or, find_user_struct, find_user_position}
use zbid.Base.{◌++◌, zero}
use zbid.LinkedList.Contents.{remove_nth}
use zbid.System.House.{accounts_of, has_name, pay, holds, without}

pub by_name :
    (w : CString) (c : CharPtr) (r : Option (Option ℕ)) (i : ℕ)
    → match_or (strcmp (some w) c) r ≡ some (some i)
    → ((has_name (some w) c ≡ true) × (i ≡ 0))
      ⊎ ((has_name (some w) c ≡ false) × ((j : ℕ) × (r ≡ some (some j)) × (i ≡ suc j)))
unfolding strcmp
by_name w none r i found = cc
by_name w (some n) r i found = elim (Bool-cases (str_eq w.text n.text)) [
  | inl hit ↦ inl (hit, place (rw hit at found))
  | inr miss ↦ inr (miss, later r (rw miss at found))
]
  where
    place : some (some 0) ≡ some (some i) → i ≡ 0
    place e = cc

    later :
        (q : Option (Option ℕ))
        → match_or (some false) q ≡ some (some i)
        → (j : ℕ) × (q ≡ some (some j)) × (i ≡ suc j)
    later none e = cc
    later (some none) e = cc
    later (some (some j)) e = (j, refl, cc)

-- A user that is found by name is rewritten with another balance.
pub accounts_of-set :
    (w : CString) (us : List User) (i : ℕ) (u v : User) (change : ℤ → ℤ)
    → find_user_struct (some w) us ≡ some (some i)
    → get_elem? us i ≡ some u
    → v.username ≡ u.username
    → v.balance ≡ change u.balance
    → accounts_of (set us i v) ≡ pay (some w) change (accounts_of us)
unfolding find_user_struct strcmp
accounts_of-set w [] i u v change found at same balance = cc
accounts_of-set w (x ∷ us) i u v change found at same balance =
    elim (by_name w x.username (find_user_struct (some w) us) i found) [
      | inl (hit, first) ↦
          let here : x ≡ u = some-injective x u (rw first at at) in
          rw (hit, first, same, balance)
            (ap (λ y. (y.username, change y.balance) ∷ accounts_of us) (sym here))
      | inr (miss, (j, further, next)) ↦
          rw (miss, next)
            (ap (λ r. (x.username, x.balance) ∷ r)
              (accounts_of-set w us j u v change further (rw next at at) same balance))
    ]

-- A user is rewritten who keeps the name and the balance.
pub accounts_of-set_same :
    (us : List User) (i : ℕ) (u v : User)
    → get_elem? us i ≡ some u
    → v.username ≡ u.username
    → v.balance ≡ u.balance
    → accounts_of (set us i v) ≡ accounts_of us
accounts_of-set_same [] i u v at same balance = refl
accounts_of-set_same (x ∷ us) zero u v at same balance =
    rw (same, balance)
      (ap (λ y. (y.username, y.balance) ∷ accounts_of us) (sym (some-injective x u at)))
accounts_of-set_same (x ∷ us) (suc i) u v at same balance =
    ap (λ r. (x.username, x.balance) ∷ r) (accounts_of-set_same us i u v at same balance)

pub accounts_of-append :
    (us : List User) (v : User)
    → accounts_of (us ++ v ∷ []) ≡ accounts_of us ++ (v.username, v.balance) ∷ []
accounts_of-append [] v = refl
accounts_of-append (u ∷ us) v = ap (λ r. (u.username, u.balance) ∷ r) (accounts_of-append us v)

-- The search by name finds a user where an account has the name.
pub holds-found :
    (w : CString) (us : List User) (i : ℕ)
    → find_user_struct (some w) us ≡ some (some i)
    → holds (some w) (accounts_of us) ≡ true
unfolding find_user_struct strcmp
holds-found w [] i found = cc
holds-found w (x ∷ us) i found =
    elim (by_name w x.username (find_user_struct (some w) us) i found) [
      | inl (hit, first) ↦ rw hit refl
      | inr (miss, (j, further, next)) ↦ rw (miss, holds-found w us j further) refl
    ]

not_by_name :
    (w : CString) (c : CharPtr) (r : Option (Option ℕ))
    → match_or (strcmp (some w) c) r ≡ some none
    → (has_name (some w) c ≡ false) × (r ≡ some none)
unfolding strcmp
not_by_name w none r missed = cc
not_by_name w (some n) r missed = elim (Bool-cases (str_eq w.text n.text)) [
  | inl hit ↦ absurd (found (rw hit at missed))
  | inr miss ↦ (miss, later r (rw miss at missed))
]
  where
    found : match_or (some true) r ≡ some none → ⊥
    found e = cc

    later : (q : Option (Option ℕ)) → match_or (some false) q ≡ some none → q ≡ some none
    later none e = cc
    later (some none) e = refl
    later (some (some j)) e = cc

pub holds-missed :
    (w : CString) (us : List User)
    → find_user_struct (some w) us ≡ some none
    → holds (some w) (accounts_of us) ≡ false
unfolding find_user_struct strcmp
holds-missed w [] missed = refl
holds-missed w (x ∷ us) missed =
    let (other, rest) = not_by_name w x.username (find_user_struct (some w) us) missed in
    rw (other, holds-missed w us rest) refl

-- The search for a watcher ends at the one whom the house takes out.
pub without-remove_nth :
    (c : CharPtr) (ws : List CharPtr) (j : ℕ)
    → find_user_position c ws ≡ some (some j)
    → without c ws ≡ remove_nth ws j
unfolding find_user_position strcmp
without-remove_nth none [] j found = cc
without-remove_nth none (x ∷ ws) j found = cc
without-remove_nth (some w) [] j found = cc
without-remove_nth (some w) (x ∷ ws) j found =
    elim (by_name w x (find_user_position (some w) ws) j found) [
      | inl (hit, first) ↦ rw (hit, first) refl
      | inr (miss, (k, further, next)) ↦
          rw (miss, next) (ap (λ r. x ∷ r) (without-remove_nth (some w) ws k further))
    ]
