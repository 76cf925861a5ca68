-- ===== src/Examples/Threads.antt =====
-- One thread inserts into the buffer of the server, with pointers of eight bytes, while another waits to remove.
use zbid.Base.{◌≡◌, ◌<◌, refl, List, [], ◌∷◌, ◌++◌, arith}
use zbid.Jobs.Buffer.{SBuf, put, take_slot, lock, slot, sbuf_init}
use zbid.Jobs.Buffer.Queue.{IsQueue, sbuf_init-IsQueue}
use zbid.Jobs.Buffer.Threads.{
  Thread, inserting, holding_slot, writing, written, removing, advance, insert, remove, Reach,
  start, call, step,
}
use zbid.Jobs.Buffer.Threads.Order.{InOrder, Reach-InOrder}
use zbid.Jobs.Buffer.Threads.Progress.{begun, CanGo, Reach-CanGo}

abbrev empty : SBuf
empty = record {
  buf = λ _. 0;
  bytes = 4096;
  n = 1024;
  front = 0;
  rear = 0;
  mutex = 1;
  slots = 1024;
  items = 0;
}

empty-IsQueue : IsQueue 8 empty []
unfolding sbuf_init
empty-IsQueue = sbuf_init-IsQueue 8 1024

abbrev stored : SBuf
stored = record empty { buf = put empty.buf 1 7; rear = 1; mutex = 0; slots = 1023 }

-- The inserting thread has stored its item and not yet given the lock back.
stored-Reach : Reach 8 (written ∷ removing ∷ []) stored (7 ∷ []) []
unfolding advance take_slot lock slot
stored-Reach =
    step [] (removing ∷ []) (writing 7) written
      (step [] (removing ∷ []) (holding_slot 7) (writing 7)
        (step [] (removing ∷ []) (inserting 7) (holding_slot 7)
          (call (inserting 7) (call removing (start empty-IsQueue) remove) (insert 7)) refl)
        refl)
      refl

Reach-InOrder_example : InOrder 8 (written ∷ removing ∷ []) stored (7 ∷ []) []
Reach-InOrder_example = Reach-InOrder stored-Reach

Reach-CanGo_example :
    (xs : List Thread) × (t : Thread) × (ys : List Thread) × (written ∷ removing ∷ []
      ≡ xs ++ t ∷ ys)
    × (0 < begun t)
    × CanGo 8 t stored
Reach-CanGo_example =
    Reach-CanGo stored-Reach (omega arith) (omega arith) (omega arith) (omega arith)
