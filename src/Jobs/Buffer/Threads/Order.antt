-- ===== src/Jobs/Buffer/Threads/Order.antt =====
-- In which order the items come out of the buffer of src/sbuf.c when threads use it at the same
-- time.
use zbid.Base.{
  ℕ, ◌+◌, ◌≤◌, ◌≡◌, refl, ap, sym, ◌∙◌, arith, List, [], ◌∷◌, ◌++◌, length, append_assoc, subst,
}
use zbid.Jobs.Buffer.{SBuf}
use zbid.Jobs.Buffer.Queue.{IsQueue}
use zbid.Jobs.Buffer.Threads.{
  Thread, entering, leaving, Starts, insert, remove, Reach, start, call, step,
}
use zbid.Jobs.Buffer.Threads.Shared.{
  critical, slot_held, item_held, sum, sum-middle, IsUsed, IsShared,
}
use zbid.Jobs.Buffer.Threads.Step.{After, After-done, advance-Moved}

-- The items that were put in are those that were taken out and those that the buffer holds, which
-- are no more than its slots; no two threads are between `P` and `V` on the mutex.
pub record InOrder (word : ℕ) (ts : List Thread) (s : SBuf) (ins outs : List ℕ) : Type 0 where
  pub items : List ℕ
  pub shared : IsShared word ts s items
  pub in_order : ins ≡ outs ++ items
  pub one_at_a_time : sum critical ts ≤ 1
  pub bounded : length items ≤ s.n

-- The sums with one thread apart.
focus :
    (word : ℕ) (xs : List Thread) (t : Thread) (ys : List Thread) (s : SBuf) (items : List ℕ)
    → IsShared word (xs ++ t ∷ ys) s items
    → IsUsed word
        (critical t + sum critical (xs ++ ys))
        (slot_held t + sum slot_held (xs ++ ys))
        (item_held t + sum item_held (xs ++ ys))
        s
        items
focus word xs t ys s items u =
    rw (sum-middle critical xs t ys, sum-middle slot_held xs t ys, sum-middle item_held xs t ys) at
      u

unfocus :
    (word : ℕ) (xs : List Thread) (t : Thread) (ys : List Thread) (s : SBuf) (items : List ℕ)
    → IsUsed word
        (critical t + sum critical (xs ++ ys))
        (slot_held t + sum slot_held (xs ++ ys))
        (item_held t + sum item_held (xs ++ ys))
        s
        items
    → IsShared word (xs ++ t ∷ ys) s items
unfocus word xs t ys s items u =
    rw (sum-middle critical xs t ys, sum-middle slot_held xs t ys, sum-middle item_held xs t ys) u

-- A thread that holds nothing.
idle-IsUsed :
    {word c a b : ℕ} {s : SBuf} {items : List ℕ}
    → IsUsed word c a b s items
    → IsUsed word (0 + c) (0 + a) (0 + b) s items
idle-IsUsed u = record {
  holds = u.holds;
  last = u.last;
  exclusive = omega (arith, u.exclusive);
  room = omega (arith, u.room);
  filled = omega (arith, u.filled);
  inside = u.inside;
}

Starts-IsShared :
    (word : ℕ) (t : Thread) (ts : List Thread) (s : SBuf) (items : List ℕ)
    → Starts t
    → IsShared word ts s items
    → IsShared word (t ∷ ts) s items
Starts-IsShared word t ts s items (insert item) u = idle-IsUsed u
Starts-IsShared word t ts s items remove u = idle-IsUsed u

IsQueue-IsShared : (word : ℕ) (s : SBuf) → IsQueue word s [] → IsShared word [] s []
IsQueue-IsShared word s q = record {
  holds = tt;
  last = q.last;
  exclusive = omega (arith, q.unlocked);
  room = omega (arith, q.room);
  filled = omega (arith, q.filled);
  inside = tt;
}

in-order :
    {word : ℕ} {ts : List Thread} {s : SBuf} {items ins outs : List ℕ}
    → IsShared word ts s items
    → ins ≡ outs ++ items
    → InOrder word ts s ins outs
in-order {items} u e = record {
  items = items;
  shared = u;
  in_order = e;
  one_at_a_time = omega (arith, u.exclusive);
  bounded = omega (arith, u.room);
}

-- However the steps of any number of threads that insert and remove interleave, from an empty
-- queue on, and as far as they write within the block: the items come out in the order in which they went in, each once, and the buffer holds
-- those between, never more than it has slots; no two threads are in the critical section at once.
pub Reach-InOrder :
    {word : ℕ} {ts : List Thread} {s : SBuf} {ins outs : List ℕ}
    → Reach word ts s ins outs
    → InOrder word ts s ins outs
Reach-InOrder {word} {s} (start q) = in-order (IsQueue-IsShared word s q) refl
Reach-InOrder {word} {s} (call {ts} t r starts) =
    let before = Reach-InOrder r in
    in-order (Starts-IsShared word t ts s before.items starts before.shared) before.in_order
Reach-InOrder {word} (step {s} {s'} {ins} {outs} xs ys t t' r run) =
    let before = Reach-InOrder r in
    let used = focus word xs t ys s before.items before.shared in
    let (items, shared, moves) = After-done (
      subst (After _) run (
        advance-Moved word (sum critical (xs ++ ys)) (sum slot_held (xs ++ ys))
          (sum item_held (xs ++ ys)) t s before.items used)) in
    in-order (unfocus word xs t' ys s' items shared) (
      ap (λ l. l ++ entering t) before.in_order
      ∙ append_assoc outs before.items (entering t)
      ∙ ap (λ l. outs ++ l) moves
      ∙ sym (append_assoc outs (leaving t t') items))
