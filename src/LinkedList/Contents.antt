-- ===== src/LinkedList/Contents.antt =====
-- `InsertAtTail` and `removeByIndex` on the sequence of items of a list.
use zbid.Base.{All, ℕ, zero, suc, Option, none, some, List, [], ◌∷◌, ◌++◌, ℤ, pos, negsuc}

module _ {ℓ} {A : Type ℓ} where
  abbrev pub insert_at_tail : List A → A → List A
  insert_at_tail xs x = xs ++ x ∷ []

  -- The list without its item at a position; a position past the end removes nothing.
  abbrev pub remove_nth : List A → ℕ → List A
  remove_nth [] i = []
  remove_nth (x ∷ xs) zero = xs
  remove_nth (x ∷ xs) (suc i) = x ∷ remove_nth xs i

  -- A negative index is less than every length, and the walk to it runs off the end: `none`.
  abbrev pub remove_by_index : List A → ℤ → Option (List A)
  remove_by_index xs (pos i) = some (remove_nth xs i)
  remove_by_index xs (negsuc i) = none

pub All-remove_nth {ℓ κ} :
    {A : Type ℓ} (P : A → Type κ) (xs : List A) (i : ℕ) → All P xs → All P (remove_nth xs i)
All-remove_nth P [] i h = tt
All-remove_nth P (x ∷ xs) zero h = h.1
All-remove_nth P (x ∷ xs) (suc i) h = (h.0, All-remove_nth P xs i h.1)
