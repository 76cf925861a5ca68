-- ===== src/Jobs/Buffer/Threads/Progress.antt =====
-- No thread that has begun to insert or remove in src/sbuf.c is stuck for good.
use zbid.Base.{
  ℕ, suc, ◌+◌, ◌*◌, ◌%◌, ◌^◌, ◌<◌, ◌≤◌, ◌≡◌, refl, arith, true, false, List, [], ◌∷◌, ◌++◌, inl,
  inr, ltb, leb, ◌==◌, ap, ◌∙◌, length,
}
use zbid.Jobs.Buffer.{SBuf, done, int_end, put, slot, lock}
use zbid.Jobs.Buffer.Queue.{Inside}
use zbid.Jobs.Buffer.Threads.{
  Thread, inserting, holding_slot, writing, written, announcing, inserted, removing, holding_item,
  reading, read, releasing, removed, advance, Reach,
}
use zbid.Jobs.Buffer.Threads.Shared.{critical, slot_held, item_held, sum, sum-middle, zero-or-suc}
use zbid.Jobs.Buffer.Threads.Order.{Reach-InOrder}

-- Has passed its first semaphore and not returned.
abbrev pub begun : Thread → ℕ
begun (holding_slot item) = 1
begun (releasing item) = 1
begun announcing = 1
begun holding_item = 1
begun t = critical t

-- The thread waits for nothing.
abbrev pub CanGo : ℕ → Thread → SBuf → Type 0
CanGo word t s = (t' : Thread) × (s' : SBuf) × (advance word t s ≡ done t' s')

find :
    (f : Thread → ℕ) (ts : List Thread)
    → 0 < sum f ts
    → (xs : List Thread) × (t : Thread) × (ys : List Thread) × (ts ≡ xs ++ t ∷ ys) × (0 < f t)
find f [] some_held = absurd (omega arith)
find f (t ∷ ts) some_held = elim (zero-or-suc (f t)) [
  | inl idle ↦
      let (xs, u, ys, e, holds) = find f ts (omega (arith, idle, some_held)) in
      (t ∷ xs, u, ys, ap (λ l. t ∷ l) e, holds)
  | inr (k, e) ↦ ([], t, ts, refl, omega (arith, e))
]

module _ (word : ℕ) (s : SBuf) (items : List ℕ)
    (stored : Inside word s.n s.bytes (s.front + 1) items) (positive : 0 < s.n)
    (next : ((s.rear + 1) % s.n + 1) * word ≤ s.bytes) (rear_fits : s.rear + 1 < 2 ^ 31)
    (front_fits : s.front + 1 < 2 ^ 31) where
  -- The slot of the oldest item lies in the block.
  oldest : 0 < length items → ((s.front + 1) % s.n + 1) * word ≤ s.bytes
  oldest = go items stored
    where
      go :
          (xs : List ℕ)
          → Inside word s.n s.bytes (s.front + 1) xs
          → 0 < length xs
          → ((s.front + 1) % s.n + 1) * word ≤ s.bytes
      go [] i some_left = absurd (omega arith)
      go (x ∷ xs) i some_left = i.0

  -- In the critical section no thread waits.
  critical-CanGo : (t : Thread) → item_held t ≤ length items → 0 < critical t → CanGo word t s
  unfolding advance slot
  critical-CanGo (writing item) held inside =
      let fits : ltb (s.rear + 1) int_end ≡ true = (ground (arith, rear_fits)) in
      let nonzero : (s.n == 0) ≡ false = (ground (arith, positive)) in
      let within : leb (((s.rear + 1) % s.n + 1) * word) s.bytes ≡ true = (ground (arith, next)) in
      (
        written,
        record s { buf = put s.buf ((s.rear + 1) % s.n) item; rear = s.rear + 1 },
        rw (fits, nonzero, within) refl,
      )
  critical-CanGo written held inside = (announcing, _, refl)
  critical-CanGo reading held inside =
      let fits : ltb (s.front + 1) int_end ≡ true = (ground (arith, front_fits)) in
      let nonzero : (s.n == 0) ≡ false = (ground (arith, positive)) in
      let lies = oldest (omega (arith, held)) in
      let within : leb (((s.front + 1) % s.n + 1) * word) s.bytes ≡ true = (ground (arith, lies)) in
      (
        read (s.buf ((s.front + 1) % s.n)),
        record s { front = s.front + 1 },
        rw (nonzero, fits, within) refl,
      )
  critical-CanGo (read item) held inside = (releasing item, _, refl)
  critical-CanGo (inserting item) held inside = absurd (omega arith)
  critical-CanGo (holding_slot item) held inside = absurd (omega arith)
  critical-CanGo announcing held inside = absurd (omega arith)
  critical-CanGo inserted held inside = absurd (omega arith)
  critical-CanGo removing held inside = absurd (omega arith)
  critical-CanGo holding_item held inside = absurd (omega arith)
  critical-CanGo (releasing item) held inside = absurd (omega arith)
  critical-CanGo (removed item) held inside = absurd (omega arith)

  begun-CanGo :
      (t : Thread) (m : ℕ)
      → item_held t ≤ length items
      → s.mutex ≡ suc m
      → 0 < begun t
      → CanGo word t s
  unfolding advance lock
  begun-CanGo (holding_slot item) m held e inside =
      (writing item, record s { mutex = m }, rw e refl)
  begun-CanGo (releasing item) m held e inside = (removed item, _, refl)
  begun-CanGo announcing m held e inside = (inserted, _, refl)
  begun-CanGo holding_item m held e inside = (reading, record s { mutex = m }, rw e refl)
  begun-CanGo (writing item) m held e inside = critical-CanGo (writing item) held inside
  begun-CanGo written m held e inside = critical-CanGo written held inside
  begun-CanGo reading m held e inside = critical-CanGo reading held inside
  begun-CanGo (read item) m held e inside = critical-CanGo (read item) held inside
  begun-CanGo (inserting item) m held e inside = absurd (omega arith)
  begun-CanGo inserted m held e inside = absurd (omega arith)
  begun-CanGo removing m held e inside = absurd (omega arith)
  begun-CanGo (removed item) m held e inside = absurd (omega arith)

critical-begun : (t : Thread) → 0 < critical t → 0 < begun t
critical-begun (writing item) inside = inside
critical-begun written inside = inside
critical-begun reading inside = inside
critical-begun (read item) inside = inside
critical-begun (inserting item) inside = absurd (omega arith)
critical-begun (holding_slot item) inside = absurd (omega arith)
critical-begun announcing inside = absurd (omega arith)
critical-begun inserted inside = absurd (omega arith)
critical-begun removing inside = absurd (omega arith)
critical-begun holding_item inside = absurd (omega arith)
critical-begun (releasing item) inside = absurd (omega arith)
critical-begun (removed item) inside = absurd (omega arith)

-- A thread that has begun and not returned holds a slot or an item.
begun-held : (t : Thread) → begun t ≤ slot_held t + item_held t
begun-held (inserting item) = omega arith
begun-held (holding_slot item) = omega arith
begun-held (writing item) = omega arith
begun-held written = omega arith
begun-held announcing = omega arith
begun-held inserted = omega arith
begun-held removing = omega arith
begun-held holding_item = omega arith
begun-held reading = omega arith
begun-held (read item) = omega arith
begun-held (releasing item) = omega arith
begun-held (removed item) = omega arith

sum-begun : (ts : List Thread) → sum begun ts ≤ sum slot_held ts + sum item_held ts
sum-begun [] = omega arith
sum-begun (t ∷ ts) = omega (arith, begun-held t, sum-begun ts)

-- Wherever the steps of threads that insert and remove have led from an empty queue, with the next
-- slot in the block and both counts in the range of `int`: while some thread has passed its first semaphore and not returned,
-- one of those has a next step and waits for nothing.
pub Reach-CanGo :
    {word : ℕ} {ts : List Thread} {s : SBuf} {ins outs : List ℕ}
    → Reach word ts s ins outs
    → ((s.rear + 1) % s.n + 1) * word ≤ s.bytes
    → s.rear + 1 < 2 ^ 31
    → s.front + 1 < 2 ^ 31
    → 0 < sum begun ts
    → (xs : List Thread) × (t : Thread) × (ys : List Thread) × (ts ≡ xs ++ t ∷ ys)
      × (0 < begun t)
      × CanGo word t s
Reach-CanGo {word} {ts} {s} r next rear_fits front_fits inside =
    let o = Reach-InOrder r in
    let u = o.shared in
    let positive : 0 < s.n = (omega (arith, u.room, u.filled, sum-begun ts, inside)) in
    elim (zero-or-suc s.mutex) [
      | inl taken ↦
          let (xs, t, ys, e, holds) = find critical ts (omega (arith, u.exclusive, taken)) in
          (
            xs,
            t,
            ys,
            e,
            critical-begun t holds,
            critical-CanGo word s o.items u.inside positive next rear_fits front_fits t
                (held_some o.items u.filled xs t ys e) holds,
          )
      | inr (m, free) ↦
          let (xs, t, ys, e, holds) = find begun ts inside in
          (
            xs,
            t,
            ys,
            e,
            holds,
            begun-CanGo word s o.items u.inside positive next rear_fits front_fits t m
                (held_some o.items u.filled xs t ys e) free holds,
          )
    ]
  where
    held_some :
        (items : List ℕ)
        → s.items + sum item_held ts ≡ length items
        → (xs : List Thread) (t : Thread) (ys : List Thread) → ts ≡ xs ++ t ∷ ys
        → item_held t ≤ length items
    held_some items filled xs t ys e =
        let split : sum item_held ts ≡ item_held t + sum item_held (xs ++ ys) =
          ap (sum item_held) e ∙ sum-middle item_held xs t ys in
        omega (arith, filled, split)
