-- ===== src/Jobs/Buffer/Threads/Step.antt =====
-- One step of a thread in `sbuf_insert` or `sbuf_remove` of src/sbuf.c, among others.
use zbid.Base.{
  ℕ, ◌+◌, ◌*◌, ◌%◌, ◌<◌, ◌≤◌, ◌≡◌, refl, ap, arith, true, false, List, [], ◌∷◌, ◌++◌, length,
  length-append, append-nil, inl, inr, Bool-cases, ltb, leb, ◌==◌,
}
use zbid.Jobs.Buffer.{SBuf, Result, done, stop, int_end, slot, take_slot, take_item, lock}
use zbid.Jobs.Buffer.Queue.{Holds-put, Inside-append}
use zbid.Jobs.Buffer.Threads.{
  Thread, inserting, holding_slot, writing, written, announcing, inserted, removing, holding_item,
  reading, read, releasing, removed, advance, entering, leaving,
}
use zbid.Jobs.Buffer.Threads.Shared.{critical, slot_held, item_held, zero-or-suc, IsUsed}

-- Where a step is made, what it leaves has a property.
pub data After (P : Thread → SBuf → Type 0) : Result Thread → Type 0 where
  returned : {t : Thread} {s : SBuf} → P t s → After P (done t s)
  stopped : {e : _} → After P (stop e)

pub After-done : {P : Thread → SBuf → Type 0} {t : Thread} {s : SBuf} → After P (done t s) → P t s
After-done (returned p) = p

module _ (word c a b : ℕ) where
  -- The step has put its item behind the others, or has taken the first, or has left them alone.
  abbrev pub Moved : Thread → List ℕ → Thread → SBuf → Type 0
  Moved t items t' s' =
      (items' : List ℕ) × IsUsed word (critical t' + c) (slot_held t' + a) (item_held t' + b) s'
        items'
      × (items ++ entering t ≡ leaving t t' ++ items')

  abbrev pub Used : Thread → SBuf → List ℕ → Type 0
  Used t s items = IsUsed word (critical t + c) (slot_held t + a) (item_held t + b) s items

  -- A step that only moves semaphores.
  moved :
      (t t' : Thread) (s : SBuf) (m k i : ℕ) (items : List ℕ)
      → Used t s items
      → entering t ≡ []
      → leaving t t' ≡ []
      → m + (critical t' + c) ≡ 1
      → k + length items + (slot_held t' + a) ≡ s.n
      → i + (item_held t' + b) ≡ length items
      → Moved t items t' (record s { mutex = m; slots = k; items = i })
  moved t t' s m k i items u e l exclusive room filled = (
    items,
    record {
      holds = u.holds;
      last = u.last;
      exclusive = exclusive;
      room = room;
      filled = filled;
      inside = u.inside;
    },
    rw (e, l) (append-nil items),
  )

  advance-write :
      (item : ℕ) (s : SBuf) (items : List ℕ)
      → Used (writing item) s items
      → After (Moved (writing item) items) (advance word (writing item) s)
  unfolding advance slot
  advance-write item s items u =
      let positive : 0 < s.n = (omega (arith, u.room)) in
      let nonzero : (s.n == 0) ≡ false = (ground (arith, positive)) in
      elim (Bool-cases (ltb (s.rear + 1) int_end)) [
        | inl fits ↦ elim (Bool-cases (leb (((s.rear + 1) % s.n + 1) * word) s.bytes)) [
          | inl within ↦
              let lies : ((s.rear + 1) % s.n + 1) * word ≤ s.bytes = (ground (arith, within)) in
              rw (fits, nonzero, within)
                (returned (
                  items ++ item ∷ [],
                  record {
                    holds =
                        Holds-put s.buf s.n (s.front + 1) (s.rear + 1) item items
                          (omega (arith, u.last)) (omega (arith, u.room)) u.holds;
                    last = omega (arith, u.last, length-append items (item ∷ []));
                    exclusive = u.exclusive;
                    room = omega (arith, u.room, length-append items (item ∷ []));
                    filled = omega (arith, u.filled, length-append items (item ∷ []));
                    inside =
                        Inside-append word s.n s.bytes (s.front + 1) (s.rear + 1) item items
                          (omega (arith, u.last)) lies u.inside;
                  },
                  refl,
                ))
          | inr past ↦ rw (fits, nonzero, past) stopped
        ]
        | inr big ↦ rw big stopped
      ]

  advance-read :
      (s : SBuf) (items : List ℕ)
      → Used reading s items
      → After (Moved reading items) (advance word reading s)
  unfolding advance slot
  advance-read s [] u = absurd (omega (arith, u.filled))
  advance-read s (x ∷ items) u = elim (Bool-cases (ltb (s.front + 1) int_end)) [
    | inl fits ↦
        let positive : 0 < s.n = (omega (arith, u.room)) in
        let nonzero : (s.n == 0) ≡ false = (ground (arith, positive)) in
        let inside : leb (((s.front + 1) % s.n + 1) * word) s.bytes ≡ true =
          (ground (arith, u.inside.0)) in
        rw (nonzero, fits, inside)
          (returned (
            items,
            record {
              holds = u.holds.1;
              last = omega (arith, u.last);
              exclusive = u.exclusive;
              room = omega (arith, u.room);
              filled = omega (arith, u.filled);
              inside = u.inside.1;
            },
            rw u.holds.0 (ap (λ l. x ∷ l) (append-nil items)),
          ))
    | inr big ↦
        let nonzero : (s.n == 0) ≡ false = (ground (arith, u.room)) in rw (nonzero, big) stopped
  ]

  pub advance-Moved :
      (t : Thread) (s : SBuf) (items : List ℕ)
      → Used t s items
      → After (Moved t items) (advance word t s)
  unfolding advance take_slot take_item lock
  advance-Moved (inserting item) s items u = elim (zero-or-suc s.slots) [
    | inl none_left ↦ rw none_left stopped
    | inr (k, e) ↦ rw e (
        returned (
          moved (inserting item) (holding_slot item) s s.mutex k s.items items u refl refl
            u.exclusive (omega (arith, e, u.room)) u.filled))
  ]
  advance-Moved (holding_slot item) s items u = elim (zero-or-suc s.mutex) [
    | inl taken ↦ rw taken stopped
    | inr (m, e) ↦ rw e (
        returned (
          moved (holding_slot item) (writing item) s m s.slots s.items items u refl refl
            (omega (arith, e, u.exclusive)) u.room u.filled))
  ]
  advance-Moved (writing item) s items u = advance-write item s items u
  advance-Moved written s items u = returned (
      moved written announcing s (s.mutex + 1) s.slots s.items items u refl refl
        (omega (arith, u.exclusive)) u.room u.filled)
  advance-Moved announcing s items u = returned (
      moved announcing inserted s s.mutex s.slots (s.items + 1) items u refl refl u.exclusive u.room
        (omega (arith, u.filled)))
  advance-Moved inserted s items u = returned (
      moved inserted inserted s s.mutex s.slots s.items items u refl refl u.exclusive u.room
        u.filled)
  advance-Moved removing s items u = elim (zero-or-suc s.items) [
    | inl none_left ↦ rw none_left stopped
    | inr (i, e) ↦ rw e (
        returned (
          moved removing holding_item s s.mutex s.slots i items u refl refl u.exclusive u.room
            (omega (arith, e, u.filled))))
  ]
  advance-Moved holding_item s items u = elim (zero-or-suc s.mutex) [
    | inl taken ↦ rw taken stopped
    | inr (m, e) ↦ rw e (
        returned (
          moved holding_item reading s m s.slots s.items items u refl refl
            (omega (arith, e, u.exclusive)) u.room u.filled))
  ]
  advance-Moved reading s items u = advance-read s items u
  advance-Moved (read item) s items u = returned (
      moved (read item) (releasing item) s (s.mutex + 1) s.slots s.items items u refl refl
        (omega (arith, u.exclusive)) u.room u.filled)
  advance-Moved (releasing item) s items u = returned (
      moved (releasing item) (removed item) s s.mutex (s.slots + 1) s.items items u refl refl
        u.exclusive (omega (arith, u.room)) u.filled)
  advance-Moved (removed item) s items u = returned (
      moved (removed item) (removed item) s s.mutex s.slots s.items items u refl refl u.exclusive
        u.room u.filled)
