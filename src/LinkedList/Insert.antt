-- ===== src/LinkedList/Insert.antt =====
-- `InsertAtHead` and `InsertAtTail` of src/linkedlist.c on a list in memory.
use zbid.Base.{
  ◌∙◌, if◌then◌else◌, ℕ, zero, suc, ◌<◌, ◌≡◌, ◌≢◌, refl, true, false, none, [], ◌∷◌, ◌++◌, arith,
  ◌==◌, length, length-append,
}
use zbid.LinkedList.Nodes.{Ptr, Memory, put, Gives, gives, Gives-mono, Gives-bind}
use zbid.LinkedList.Chain.{
  Cells, lies_in, IsNode, Chain, end, link, Around, fetch-node, set_next-node, Chain-put,
  not-lies_in-of_free, node-ne_free, lies_in-append,
}
use zbid.LinkedList.Code.{CList, insert_at_head, append_after, insert_at_tail}

-- The list consists of the nodes `xs`, and `length` counts them.
pub record IsList (h : Memory) (l : CList) (xs : Cells) : Type 0 where
  pub chain : Chain h l.head xs
  pub counted : l.length ≡ length xs

-- What an insertion leaves: the nodes in their new order, the old memory around them.
abbrev pub Inserted : Memory → Cells → CList → Memory → Type 0
Inserted h ys l g = IsList g l ys × Around ys h g

-- Resetting the head of an empty list changes nothing.
head-eq :
    (h : Memory) (p : Ptr) (n : ℕ) (xs : Cells)
    → Chain h p xs
    → n ≡ length xs
    → (if n == 0 then 0 else p) ≡ p
head-eq h p n [] end e = ground arith
head-eq h p n (x ∷ xs) (link nd out c) e = ground arith

-- `InsertAtHead` of an item that is not NULL, with a new node at a free address that is not NULL,
-- returns: it puts the item in front of a well-formed list, counts it and writes only there.
pub insert_at_head-cons :
    (fresh v : Ptr) (h : Memory) (l : CList) (xs : Cells)
    → IsList h l xs
    → v ≢ 0
    → fresh ≢ 0
    → h fresh ≡ none
    → Gives (Inserted h ((fresh, v) ∷ xs)) (insert_at_head fresh l v h)
unfolding insert_at_head put
insert_at_head-cons fresh v h l xs is item new free =
    let nonzero : (v == 0) ≡ false = (ground arith) in
    let out = not-lies_in-of_free fresh is.chain free in
    rw (nonzero, head-eq h l.head l.length xs is.chain is.counted)
      (gives (
        record {
          chain =
              link (record { not_null = ground arith; holds = ground arith }) out
                (Chain-put fresh _ is.chain out);
          counted = omega (arith, is.counted);
        },
        λ p o. ground arith,
      ))

module _ (fresh v : Ptr) (item : v ≢ 0) (new : fresh ≢ 0) where
  -- The walk to the last node. The first node comes in its parts.
  append_after-Chain :
      (fuel : ℕ) {h : Memory} {p q u : Ptr} {xs : Cells}
      → h fresh ≡ none
      → IsNode h p u q
      → lies_in p xs ≡ false
      → Chain h q xs
      → length xs < fuel
      → Gives
          (λ _ g.
            Chain g p ((p, u) ∷ xs ++ (fresh, v) ∷ [])
            × Around ((p, u) ∷ xs ++ (fresh, v) ∷ []) h g)
          (append_after fuel fresh v p h)
  unfolding append_after put
  append_after-Chain zero free n out c enough = absurd (omega arith)
  append_after-Chain (suc fuel) {p} free n out end enough =
      rw (fetch-node n, set_next-node n fresh)
        (let apart = node-ne_free n free in
          gives (
            link (record { not_null = n.not_null; holds = ground arith }) (ground arith)
                (link (record { not_null = ground arith; holds = ground arith }) refl end),
            λ q o. ground arith,
          ))
  append_after-Chain (suc fuel) {p} free n out (link {p = r} {v = w} {xs = xs'} n' out' c) enough =
      rw (fetch-node n, n'.not_null)
        (Gives-mono (append_after-Chain fuel free n' out' c (omega arith)) λ _ g (chain, around).
          let apart = node-ne_free n free in
          let out_of_all : lies_in p ((r, w) ∷ xs' ++ (fresh, v) ∷ []) ≡ false =
            (rw (lies_in-append p ((r, w) ∷ xs') ((fresh, v) ∷ [])) (ground arith)) in
          (
            link (record { not_null = n.not_null; holds = around p out_of_all ∙ n.holds })
                out_of_all chain,
            λ q o. around q (ground arith),
          ))

  append_list :
      (fuel : ℕ) (h : Memory) (p : Ptr) (x : Ptr × Ptr) (xs : Cells)
      → h fresh ≡ none
      → Chain h p (x ∷ xs)
      → length xs < fuel
      → Gives
          (λ _ g. Chain g p (x ∷ xs ++ (fresh, v) ∷ []) × Around (x ∷ xs ++ (fresh, v) ∷ []) h g)
          (append_after fuel fresh v p h)
  append_list fuel h p x xs free (link n out c) enough = append_after-Chain fuel free n out c enough

-- `InsertAtTail` of an item that is not NULL, with a new node at a free address that is not NULL,
-- returns: it puts the item at the end of a well-formed list, counts it and writes only to the
-- list's own nodes and to the new one.
pub insert_at_tail-append :
    (fresh v : Ptr) (h : Memory) (l : CList) (xs : Cells)
    → IsList h l xs
    → v ≢ 0
    → fresh ≢ 0
    → h fresh ≡ none
    → Gives (Inserted h (xs ++ (fresh, v) ∷ [])) (insert_at_tail fresh l v h)
unfolding insert_at_tail
insert_at_tail-append fresh v h l [] is item new free =
    let nonzero : (v == 0) ≡ false = (ground arith) in
    let empty : (l.length == 0) ≡ true = (ground (arith, is.counted)) in
    rw (nonzero, empty) (insert_at_head-cons fresh v h l [] is item new free)
insert_at_tail-append fresh v h l (x ∷ xs) is item new free =
    let nonzero : (v == 0) ≡ false = (ground arith) in
    let nonempty : (l.length == 0) ≡ false = (ground (arith, is.counted)) in
    rw (nonzero, nonempty)
      (Gives-bind
        (append_list fresh v item new (suc l.length) h l.head x xs free is.chain
          (omega (arith, is.counted)))
        λ _ g (chain, around). gives (
          record {
            chain = chain;
            counted = omega (arith, is.counted, length-append (x ∷ xs) ((fresh, v) ∷ []));
          },
          around,
        ))
