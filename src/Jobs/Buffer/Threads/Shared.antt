-- ===== src/Jobs/Buffer/Threads/Shared.antt =====
-- What holds of the buffer of src/sbuf.c while threads are in the middle of its functions.
use zbid.Base.{ℕ, zero, suc, ◌+◌, ◌≡◌, refl, arith, inl, inr, ◌⊎◌, List, [], ◌∷◌, ◌++◌, length}
use zbid.Jobs.Buffer.{SBuf}
use zbid.Jobs.Buffer.Queue.{Holds, Inside}
use zbid.Jobs.Buffer.Threads.{
  Thread, holding_slot, writing, written, announcing, holding_item, reading, read, releasing,
}

-- Between `P` and `V` on the mutex.
abbrev pub critical : Thread → ℕ
critical (writing item) = 1
critical written = 1
critical reading = 1
critical (read item) = 1
critical _ = 0

-- Has a slot that is counted neither as free nor as filled.
abbrev pub slot_held : Thread → ℕ
slot_held (holding_slot item) = 1
slot_held (writing item) = 1
slot_held (read item) = 1
slot_held (releasing item) = 1
slot_held _ = 0

-- Has a claim on an item of the buffer that `items` does not count.
abbrev pub item_held : Thread → ℕ
item_held written = 1
item_held announcing = 1
item_held holding_item = 1
item_held reading = 1
item_held _ = 0

abbrev pub sum : (Thread → ℕ) → List Thread → ℕ
sum f [] = 0
sum f (t ∷ ts) = f t + sum f ts

pub sum-middle :
    (f : Thread → ℕ) (xs : List Thread) (t : Thread) (ys : List Thread)
    → sum f (xs ++ t ∷ ys) ≡ f t + sum f (xs ++ ys)
sum-middle f [] t ys = refl
sum-middle f (x ∷ xs) t ys = omega (arith, sum-middle f xs t ys)

-- The buffer holds `items`, the oldest first, while the threads in it are in their critical section
-- `c` times, and hold `a` slots and `b` items.
pub record IsUsed (word c a b : ℕ) (s : SBuf) (items : List ℕ) : Type 0 where
  pub holds : Holds s.buf s.n (s.front + 1) items
  pub last : s.rear ≡ s.front + length items
  pub exclusive : s.mutex + c ≡ 1
  pub room : s.slots + length items + a ≡ s.n
  pub filled : s.items + b ≡ length items
  pub inside : Inside word s.n s.bytes (s.front + 1) items

abbrev pub IsShared : ℕ → List Thread → SBuf → List ℕ → Type 0
IsShared word ts = IsUsed word (sum critical ts) (sum slot_held ts) (sum item_held ts)

pub zero-or-suc : (n : ℕ) → ((n ≡ 0) ⊎ ((k : ℕ) × (n ≡ suc k)))
zero-or-suc zero = inl refl
zero-or-suc (suc k) = inr (k, refl)
