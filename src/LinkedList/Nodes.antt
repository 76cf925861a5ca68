-- ===== src/LinkedList/Nodes.antt =====
-- The nodes of src/linkedlist.c in memory, and the reads and writes through a pointer.
use zbid.Base.{ℕ, ◌==◌, Option, none, some, if◌then◌else◌}

-- A pointer to a node, or to an item; 0 is NULL.
abbrev pub Ptr : Type 0
Ptr = ℕ

-- `node_t`, whose field `data` is called `item` here.
pub record Node : Type 0 where
  pub item : Ptr
  pub next : Ptr

abbrev pub Memory : Type 0
Memory = Ptr → Option Node

unfoldable pub put : Memory → Ptr → Option Node → Memory
put h p c q = if q == p then c else h q

-- A run returns, reads through a pointer to no node, or is cut off while a loop still goes round.
pub data Outcome (A : Type 0) : Type 0 where
  result : A → Memory → Outcome A
  fault : Outcome A
  unfinished : Outcome A

abbrev pub C : Type 0 → Type 0
C A = Memory → Outcome A

module _ {A B : Type 0} where
  abbrev pub after : Outcome A → (A → C B) → Outcome B
  after (result a h) k = k a h
  after fault k = fault
  after unfinished k = unfinished

  infixl 5 ◌>>=◌ ◌>>◌
  abbrev pub ◌>>=◌ : C A → (A → C B) → C B
  m >>= k = λ h. after (m h) k

  abbrev pub ◌>>◌ : C A → C B → C B
  m >> n = m >>= λ _. n

-- `*p`.
unfoldable pub fetch : Ptr → C Node
fetch p h = if p == 0 then fault else elim (h p) [ none ↦ fault | some n ↦ result n h ]

-- A node is filled that `malloc` returned.
unfoldable pub fill : Ptr → Node → C (Unit {0})
fill p n h = result tt (put h p (some n))

-- `p->next = q`.
unfoldable pub set_next : Ptr → Ptr → C (Unit {0})
set_next p q = do n ← fetch p; fill p (record n { next = q })

-- `free(p)`.
unfoldable pub release : Ptr → C (Unit {0})
release p = do fetch p; λ h. result tt (put h p none)

-- Total correctness of a run.
pub data Gives {A : Type 0} (P : A → Memory → Type 0) : Outcome A → Type 0 where
  gives : {a : A} {h : Memory} → P a h → Gives P (result a h)

pub Gives-mono :
    {A : Type 0} {P Q : A → Memory → Type 0} {r : Outcome A}
    → Gives P r
    → ((a : A) (h : Memory) → P a h → Q a h)
    → Gives Q r
Gives-mono (gives p) weaken = gives (weaken _ _ p)

pub Gives-bind :
    {A B : Type 0} {P : A → Memory → Type 0} {Q : B → Memory → Type 0} {r : Outcome A} {k : A → C B}
    → Gives P r
    → ((a : A) (h : Memory) → P a h → Gives Q (k a h))
    → Gives Q (after r k)
Gives-bind (gives p) next = next _ _ p
