-- ===== src/Jobs/Buffer/Threads.antt =====
-- The threads that call `sbuf_insert` and `sbuf_remove` of src/sbuf.c at the same time. Each call of
-- a semaphore function is one step, and so is the statement between `P` and `V` on the mutex.
pub mod Shared
pub mod Step
pub mod Order
pub mod Progress
use zbid.Base.{ℕ, zero, suc, ◌+◌, ◌==◌, ◌≡◌, List, [], ◌∷◌, ◌++◌, ltb, if◌then◌else◌}
use zbid.Jobs.Buffer.{
  SBuf, B, Result, done, stop, overflow, and_then, ◌>>=◌, ◌>>◌, take_slot, take_item, lock, slot,
  put, int_end,
}
use zbid.Jobs.Buffer.Queue.{IsQueue}

-- What a thread in one of the two functions does next.
pub data Thread : Type 0 where
  inserting holding_slot writing : ℕ → Thread
  written announcing inserted : Thread
  removing holding_item reading : Thread
  read releasing removed : ℕ → Thread

-- The next step of a thread; one that has returned stays where it is.
unfoldable pub advance : ℕ → Thread → B Thread
unfolding take_slot take_item lock slot put
advance word (inserting item) = do take_slot; done (holding_slot item)
advance word (holding_slot item) = do lock; done (writing item)
advance word (writing item) = do
  rear ← λ s.
      if ltb (s.rear + 1) int_end
      then done (s.rear + 1) (record s { rear = s.rear + 1 })
      else stop overflow
  i ← slot word rear
  λ s. done written (record s { buf = put s.buf i item })
advance word written = λ s. done announcing (record s { mutex = s.mutex + 1 })
advance word announcing = λ s. done inserted (record s { items = s.items + 1 })
advance word inserted = done inserted
advance word removing = do take_item; done holding_item
advance word holding_item = do lock; done reading
advance word reading = λ s.
    if s.n == 0
    then done (removed 0) s
    else if ltb (s.front + 1) int_end
    then and_then (slot word (s.front + 1) (record s { front = s.front + 1 }))
        (λ i t. done (read (t.buf i)) t)
    else stop overflow
advance word (read item) = λ s. done (releasing item) (record s { mutex = s.mutex + 1 })
advance word (releasing item) = λ s. done (removed item) (record s { slots = s.slots + 1 })
advance word (removed item) = done (removed item)

-- The item that a step puts into the buffer, and the one that it takes out.
abbrev pub entering : Thread → List ℕ
entering (writing item) = item ∷ []
entering _ = []

abbrev pub leaving : Thread → Thread → List ℕ
leaving reading (read item) = item ∷ []
leaving _ _ = []

-- A thread before its first step.
pub data Starts : Thread → Type 0 where
  insert : (item : ℕ) → Starts (inserting item)
  remove : Starts removing

-- The threads and the buffer in a run from an empty queue, with the items that were put in and those
-- that were taken out, each in order.
pub data Reach (word : ℕ) : List Thread → SBuf → List ℕ → List ℕ → Type 0 where
  start : {s : SBuf} → IsQueue word s [] → Reach word [] s [] []
  call :
      {ts : List Thread} {s : SBuf} {ins outs : List ℕ} (t : Thread)
      → Reach word ts s ins outs
      → Starts t
      → Reach word (t ∷ ts) s ins outs
  step :
      {s s' : SBuf} {ins outs : List ℕ} (xs ys : List Thread) (t t' : Thread)
      → Reach word (xs ++ t ∷ ys) s ins outs
      → advance word t s ≡ done t' s'
      → Reach word (xs ++ t' ∷ ys) s' (ins ++ entering t) (outs ++ leaving t t')
