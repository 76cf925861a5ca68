-- ===== src/Jobs/Buffer.antt =====
-- The bounded buffer of src/sbuf.c, each operation run on its own.
pub mod Queue
pub mod Threads
use zbid.Base.{ℕ, zero, suc, ◌+◌, ◌*◌, ◌%◌, ◌^◌, ◌==◌, Option, leb, ltb, if◌then◌else◌}

-- `sbuf_t`: the pointers by slot, the bytes that were allocated for them, and the rest as in the
-- code. No count is ever negative.
pub record SBuf : Type 0 where
  pub buf : ℕ → ℕ
  pub bytes : ℕ
  pub n : ℕ
  pub front : ℕ
  pub rear : ℕ
  pub mutex : ℕ
  pub slots : ℕ
  pub items : ℕ

-- The thread waits for a semaphore; a counter leaves the range of `int`; `% 0`; an access outside
-- the allocated block.
pub data Stop : Type 0 where
  waits overflow division outside : Stop

pub data Result (A : Type 0) : Type 0 where
  done : A → SBuf → Result A
  stop : Stop → Result A

abbrev pub B : Type 0 → Type 0
B A = SBuf → Result A

module _ {A C : Type 0} where
  abbrev pub and_then : Result A → (A → B C) → Result C
  and_then (done a s) k = k a s
  and_then (stop e) k = stop e

  infixl 5 ◌>>=◌ ◌>>◌
  abbrev pub ◌>>=◌ : B A → (A → B C) → B C
  m >>= k = λ s. and_then (m s) k

  abbrev pub ◌>>◌ : B A → B C → B C
  m >> k = m >>= λ _. k

-- `P` on the three semaphores.
unfoldable pub take_slot : B (Unit {0})
take_slot s = elim s.slots [ zero ↦ stop waits | suc k ↦ done tt (record s { slots = k }) ]

unfoldable pub take_item : B (Unit {0})
take_item s = elim s.items [ zero ↦ stop waits | suc k ↦ done tt (record s { items = k }) ]

unfoldable pub lock : B (Unit {0})
lock s = elim s.mutex [ zero ↦ stop waits | suc k ↦ done tt (record s { mutex = k }) ]

-- The slot `k % n`, in a block for pointers of `word` bytes.
unfoldable pub slot : ℕ → ℕ → B ℕ
slot word k s =
    if s.n == 0
    then stop division
    else if leb ((k % s.n + 1) * word) s.bytes
    then done (k % s.n) s
    else stop outside

unfoldable pub put : (ℕ → ℕ) → ℕ → ℕ → ℕ → ℕ
put buf i item j = if j == i then item else buf j

abbrev pub int_end : ℕ
int_end = 2 ^ 31

-- `sbuf_insert`
unfoldable pub sbuf_insert : ℕ → ℕ → B (Unit {0})
unfolding take_slot lock slot put
sbuf_insert word item = do
  take_slot
  lock
  rear ← λ s.
      if ltb (s.rear + 1) int_end
      then done (s.rear + 1) (record s { rear = s.rear + 1 })
      else stop overflow
  i ← slot word rear
  λ s. done tt (record s { buf = put s.buf i item; mutex = s.mutex + 1; items = s.items + 1 })

-- `sbuf_remove`; with no slots at all it returns NULL, and keeps the lock.
unfoldable pub sbuf_remove : ℕ → B ℕ
unfolding take_item lock slot
sbuf_remove word = do
  take_item
  lock
  λ s.
      if s.n == 0
      then done 0 s
      else if ltb (s.front + 1) int_end
      then and_then (slot word (s.front + 1) (record s { front = s.front + 1 }))
          (λ i t. done (t.buf i) (record t { mutex = t.mutex + 1; slots = t.slots + 1 }))
      else stop overflow

-- `sbuf_init`: `calloc(n, sizeof(int))`, for slots that hold pointers.
unfoldable pub sbuf_init : ℕ → SBuf
sbuf_init n = record {
  buf = λ _. 0;
  bytes = n * 4;
  n = n;
  front = 0;
  rear = 0;
  mutex = 1;
  slots = n;
  items = 0;
}
