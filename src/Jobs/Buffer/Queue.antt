-- ===== src/Jobs/Buffer/Queue.antt =====
-- The buffer of src/sbuf.c and the sequence of the items in it.
use zbid.Base.{
  Bool-cases, inl, inr, ◌-◌, ◌∙◌, ap, sym, ◌^◌, ℕ, suc, ◌+◌, ◌*◌, ◌%◌, ◌<◌, ◌≤◌, ◌≡◌, ◌≢◌, refl,
  subst, true, false, List, [], ◌∷◌, ◌++◌, arith, length, length-append, leb, ltb, ◌==◌,
}
use native.Mathlib.Nat.{mod-lt, mod-add-mod, mod-eq_of_lt, mod-eq-sub-mod}
use zbid.Jobs.Buffer.{
  take_slot, take_item, lock, int_end, SBuf, done, stop, outside, sbuf_insert, sbuf_remove,
  sbuf_init, slot, put,
}

-- From the count `k` on, the slots hold the items.
abbrev pub Holds : (ℕ → ℕ) → ℕ → ℕ → List ℕ → Type 0
Holds buf n k [] = Unit
Holds buf n k (x ∷ xs) = (buf (k % n) ≡ x) × Holds buf n (k + 1) xs

-- From the count `k` on, the slots of the items lie in a block of so many bytes.
abbrev pub Inside : ℕ → ℕ → ℕ → ℕ → List ℕ → Type 0
Inside word n bytes k [] = Unit
Inside word n bytes k (x ∷ xs) = ((k % n + 1) * word ≤ bytes) × Inside word n bytes (k + 1) xs

-- The buffer holds the items `xs`, the oldest first, in slots for pointers of `word` bytes that lie
-- in its block; the slots that are free need not.
pub record IsQueue (word : ℕ) (s : SBuf) (xs : List ℕ) : Type 0 where
  pub holds : Holds s.buf s.n (s.front + 1) xs
  pub last : s.rear ≡ s.front + length xs
  pub unlocked : s.mutex ≡ 1
  pub room : s.slots + length xs ≡ s.n
  pub filled : s.items ≡ length xs
  pub inside : Inside word s.n s.bytes (s.front + 1) xs

-- Two counts less than `n` apart have different slots.
shift-ne : (r d n : ℕ) → r < n → 0 < d → d < n → (r + d) % n ≢ r
shift-ne r d n bound positive small same = elim (Bool-cases (ltb (r + d) n)) [
  | inl within ↦
      let below : r + d < n = (ground arith) in
      let e : (r + d) % n ≡ r + d = mod-eq_of_lt below in omega (arith, e, same, positive)
  | inr beyond ↦
      let above : n ≤ r + d = (ground arith) in
      let e : (r + d) % n ≡ (r + d - n) % n = mod-eq-sub-mod above in
      let less : r + d - n < n = (omega arith) in
      let f : (r + d - n) % n ≡ r + d - n = mod-eq_of_lt less in
      omega (arith, e, f, same, small, above)
]

mod-ne : (a d n : ℕ) → 0 < d → d < n → (a + d) % n ≢ a % n
mod-ne a d n positive small same =
    shift-ne (a % n) d n (mod-lt a (omega (arith, positive, small))) positive small
      (mod-add-mod a n d ∙ same)

put-same : (buf : ℕ → ℕ) (i j x : ℕ) → i ≡ j → put buf i x j ≡ x
unfolding put
put-same buf i j x same = ground arith

put-other : (buf : ℕ → ℕ) (i j x : ℕ) → i ≢ j → put buf i x j ≡ buf j
unfolding put
put-other buf i j x other = ground arith

-- The slot behind those that hold the items is written, and they keep theirs.
pub Holds-put :
    (buf : ℕ → ℕ) (n k m x : ℕ) (xs : List ℕ)
    → m ≡ k + length xs
    → length xs < n
    → Holds buf n k xs
    → Holds (put buf (m % n) x) n k (xs ++ x ∷ [])
Holds-put buf n k m x [] end small h =
    let same : m ≡ k = (omega (arith, end)) in
    (put-same buf (m % n) (k % n) x (ap (λ c. c % n) same), tt)
Holds-put buf n k m x (y ∷ xs) end small (e, h) = (
  put-other buf (m % n) (k % n) x (λ same.
        mod-ne k (suc (length xs)) n (omega arith) small (ap (λ c. c % n) (sym end) ∙ same))
      ∙ e,
  Holds-put buf n (k + 1) m x xs (omega (arith, end)) (omega (arith, small)) h,
)

pub Inside-append :
    (word n bytes k m x : ℕ) (xs : List ℕ)
    → m ≡ k + length xs
    → (m % n + 1) * word ≤ bytes
    → Inside word n bytes k xs
    → Inside word n bytes k (xs ++ x ∷ [])
Inside-append word n bytes k m x [] end within i =
    let same : m ≡ k = (omega (arith, end)) in
    (subst (λ c. (c % n + 1) * word ≤ bytes) same within, tt)
Inside-append word n bytes k m x (y ∷ xs) end within (i, is) =
    (i, Inside-append word n bytes (k + 1) m x xs (omega (arith, end)) within is)

pub slot-done :
    (word k : ℕ) (s : SBuf)
    → 0 < s.n
    → (k % s.n + 1) * word ≤ s.bytes
    → slot word k s ≡ done (k % s.n) s
unfolding slot
slot-done word k s positive within =
    let nonzero : (s.n == 0) ≡ false = (ground (arith, positive)) in
    let inside : leb ((k % s.n + 1) * word) s.bytes ≡ true = (ground (arith, within)) in
    rw (nonzero, inside) refl

-- The buffer with one more item, and without its first.
abbrev inserted : ℕ → ℕ → SBuf → SBuf
inserted k item s = record s {
  buf = put s.buf ((s.rear + 1) % s.n) item;
  rear = s.rear + 1;
  mutex = 1;
  slots = k;
  items = s.items + 1;
}

abbrev removed : ℕ → SBuf → SBuf
removed k s = record s { front = s.front + 1; mutex = 1; slots = s.slots + 1; items = k }

inserted-IsQueue :
    (word item k : ℕ) (s : SBuf) (xs : List ℕ)
    → IsQueue word s xs
    → length xs < s.n
    → ((s.rear + 1) % s.n + 1) * word ≤ s.bytes
    → s.slots ≡ suc k
    → IsQueue word (inserted k item s) (xs ++ item ∷ [])
inserted-IsQueue word item k s xs q free within left = record {
  holds =
      Holds-put s.buf s.n (s.front + 1) (s.rear + 1) item xs (omega (arith, q.last)) free q.holds;
  last = omega (arith, q.last, length-append xs (item ∷ []));
  unlocked = refl;
  room = omega (arith, q.room, left, length-append xs (item ∷ []));
  filled = omega (arith, q.filled, length-append xs (item ∷ []));
  inside =
      Inside-append word s.n s.bytes (s.front + 1) (s.rear + 1) item xs (omega (arith, q.last))
        within q.inside;
}

removed-IsQueue :
    (word x k : ℕ) (s : SBuf) (xs : List ℕ)
    → IsQueue word s (x ∷ xs)
    → s.items ≡ suc k
    → IsQueue word (removed k s) xs
removed-IsQueue word x k s xs q left = record {
  holds = q.holds.1;
  last = omega (arith, q.last);
  unlocked = refl;
  room = omega (arith, q.room);
  filled = omega (arith, q.filled, left);
  inside = q.inside.1;
}

sbuf_insert-run :
    (word item k : ℕ) (s : SBuf)
    → s.slots ≡ suc k
    → s.mutex ≡ 1
    → ltb (s.rear + 1) int_end ≡ true
    → 0 < s.n
    → ((s.rear + 1) % s.n + 1) * word ≤ s.bytes
    → sbuf_insert word item s ≡ done tt (inserted k item s)
unfolding sbuf_insert take_slot lock
sbuf_insert-run word item k s left unlocked counted positive within =
    rw
      (
        left,
        unlocked,
        counted,
        slot-done word (s.rear + 1) (record s { slots = k; mutex = 0; rear = s.rear + 1 }) positive
            within,
      )
      refl

sbuf_remove-run :
    (word k : ℕ) (s : SBuf)
    → s.items ≡ suc k
    → s.mutex ≡ 1
    → ltb (s.front + 1) int_end ≡ true
    → 0 < s.n
    → ((s.front + 1) % s.n + 1) * word ≤ s.bytes
    → sbuf_remove word s ≡ done (s.buf ((s.front + 1) % s.n)) (removed k s)
unfolding sbuf_remove take_item lock slot
sbuf_remove-run word k s left unlocked counted positive within =
    let nonzero : (s.n == 0) ≡ false = (ground (arith, positive)) in
    let inside : leb (((s.front + 1) % s.n + 1) * word) s.bytes ≡ true = (ground (arith, within)) in
    rw (left, unlocked, nonzero, counted, inside) refl

-- On a queue that is not full, whose next slot lies in the block, with the count in the range of
-- `int`, `sbuf_insert` waits for no semaphore and returns: the item stands behind the others.
pub sbuf_insert-append :
    (word item : ℕ) (s : SBuf) (xs : List ℕ)
    → IsQueue word s xs
    → length xs < s.n
    → ((s.rear + 1) % s.n + 1) * word ≤ s.bytes
    → s.rear + 1 < 2 ^ 31
    → (t : SBuf) × (sbuf_insert word item s ≡ done tt t)
      × IsQueue word t (xs ++ item ∷ [])
      × (t.n ≡ s.n)
sbuf_insert-append word item s xs q free within fits =
    let left : s.slots ≡ suc (s.slots - 1) = (omega (arith, free, q.room)) in
    let counted : ltb (s.rear + 1) int_end ≡ true = (ground (arith, fits)) in
    (
      inserted (s.slots - 1) item s,
      sbuf_insert-run word item (s.slots - 1) s left q.unlocked counted (omega (arith, free))
          within,
      inserted-IsQueue word item (s.slots - 1) s xs q free within left,
      refl,
    )

-- On a queue that is not empty, whose items lie in slots within the block, with the count in the range
-- of `int`, `sbuf_remove` waits for no semaphore and returns the oldest item; the others stay in
-- their order, and the count is one more.
pub sbuf_remove-cons :
    (word x : ℕ) (s : SBuf) (xs : List ℕ)
    → IsQueue word s (x ∷ xs)
    → s.front + 1 < 2 ^ 31
    → (t : SBuf) × (sbuf_remove word s ≡ done x t)
      × IsQueue word t xs
      × (t.n ≡ s.n)
      × (t.front ≡ s.front + 1)
sbuf_remove-cons word x s xs q fits =
    let left : s.items ≡ suc (s.items - 1) = (omega (arith, q.filled)) in
    let counted : ltb (s.front + 1) int_end ≡ true = (ground (arith, fits)) in
    (
      removed (s.items - 1) s,
      sbuf_remove-run word (s.items - 1) s left q.unlocked counted (omega (arith, q.room))
            q.inside.0
          ∙ ap (λ y. done y (removed (s.items - 1) s)) q.holds.0,
      removed-IsQueue word x (s.items - 1) s xs q left,
      refl,
      refl,
    )

-- A new buffer is an empty queue, for pointers of any size.
pub sbuf_init-IsQueue : (word n : ℕ) → IsQueue word (sbuf_init n) []
unfolding sbuf_init
sbuf_init-IsQueue word n = record {
  holds = tt;
  last = refl;
  unlocked = refl;
  room = omega arith;
  filled = refl;
  inside = tt;
}

-- With pointers of eight bytes, `sbuf_insert` writes outside the block that `sbuf_init` allocated,
-- `n` times four bytes, when the slot lies in the upper half of the slots, the lock and a slot are
-- free and the count is in the range of `int`.
pub sbuf_insert-outside :
    (item k : ℕ) (s : SBuf)
    → s.slots ≡ suc k
    → s.mutex ≡ 1
    → s.rear + 1 < 2 ^ 31
    → 0 < s.n
    → s.bytes ≡ (sbuf_init s.n).bytes
    → s.n ≤ 2 * ((s.rear + 1) % s.n)
    → sbuf_insert 8 item s ≡ stop outside
unfolding sbuf_insert take_slot lock slot sbuf_init
sbuf_insert-outside item k s left unlocked fits positive block upper =
    let counted : ltb (s.rear + 1) int_end ≡ true = (ground (arith, fits)) in
    let nonzero : (s.n == 0) ≡ false = (ground (arith, positive)) in
    let past : leb (((s.rear + 1) % s.n + 1) * 8) s.bytes ≡ false =
      (ground (arith, block, upper)) in
    rw (left, unlocked, counted, nonzero, past) refl
