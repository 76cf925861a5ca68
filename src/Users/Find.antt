-- ===== src/Users/Find.antt =====
-- The searches through `usersList`, and through the names of a list of watchers.
pub mod Known
use zbid.Base.{
  ℕ, suc, Bool, true, false, Option, none, some, List, [], ◌∷◌, ℤ, pos, negsuc, eq_ℤ, if◌then◌else◌,
}
use zbid.Server.{CharPtr, User}
use zbid.Server.Monad.{strcmp, M, pure, ◌>>=◌, deref, gets, load_user}

-- A position in the rest of a list, counted from one item earlier.
abbrev pub shift : Option ℕ → Option ℕ
shift none = none
shift (some i) = some (suc i)

-- `findUsername`: the first user with the descriptor.
unfoldable pub find_username : ℤ → List User → Option ℕ
find_username client_fd [] = none
find_username client_fd (u ∷ us) =
    if eq_ℤ u.fd client_fd then some 0 else shift (find_username client_fd us)

-- One round of a search by name: the outcome of `strcmp`, then the search of the rest. The outer
-- `none` is a NULL that `strcmp` was given, the inner `none` a search that found nothing.
abbrev pub match_or : Option Bool → Option (Option ℕ) → Option (Option ℕ)
match_or none rest = none
match_or (some true) rest = some (some 0)
match_or (some false) none = none
match_or (some false) (some i) = some (shift i)

-- `findUserStruct`: the first user with the name.
unfoldable pub find_user_struct : CharPtr → List User → Option (Option ℕ)
find_user_struct username [] = some none
find_user_struct username (u ∷ us) =
    match_or (strcmp username u.username) (find_user_struct username us)

-- `findUserIndex`: the first watcher with the name.
unfoldable pub find_user_position : CharPtr → List CharPtr → Option (Option ℕ)
find_user_position username [] = some none
find_user_position username (w ∷ ws) = match_or (strcmp username w) (find_user_position username ws)

-- An index of type `int`, -1 where the search found nothing.
abbrev pub to_index : Option ℕ → ℤ
to_index none = negsuc 0
to_index (some i) = pos i

unfoldable pub find_user_index : List CharPtr → CharPtr → M ℤ
unfolding find_user_position
find_user_index list username = do
  found ← deref (find_user_position username list)
  pure (to_index found)

-- `findClientFd`: the descriptor of the first user with the name, or -1.
unfoldable pub find_client_fd : CharPtr → M ℤ
unfolding find_user_struct load_user
find_client_fd username = do
  users ← gets (λ s. s.users)
  found ← deref (find_user_struct username users)
  elim found [ none ↦ pure (negsuc 0) | some i ↦ (do u ← load_user i; pure u.fd) ]

-- The user with the descriptor, read through the pointer at once.
unfoldable pub client_user : ℤ → M User
unfolding find_username load_user
client_user client_fd = do
  users ← gets (λ s. s.users)
  i ← deref (find_username client_fd users)
  load_user i
