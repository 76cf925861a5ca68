-- ===== src/LinkedList/Order.antt =====
-- `InsertInOrder` of src/linkedlist.c on a list in memory.
use zbid.Base.{
  sym, ap, ◌∙◌, ℕ, zero, suc, ◌<◌, ◌≡◌, ◌≢◌, refl, true, false, ◌||◌, Option, none, some, [], ◌∷◌,
  arith, ◌==◌, length, ℤ, pos, ltb_ℤ, inl, inr, Bool-cases, if◌then◌else◌,
}
use zbid.LinkedList.Nodes.{
  Ptr, Node, Memory, put, ◌>>◌, set_next, Gives, gives, Gives-mono, Gives-bind,
}
use zbid.LinkedList.Chain.{
  Cells, lies_in, IsNode, Chain, end, link, Around, fetch-node, set_next-node, Chain-put,
  not-lies_in-of_free,
}
use zbid.LinkedList.Code.{CList, node, insert_between, insert_in_order, call_comparator}
use zbid.LinkedList.Insert.{IsList, Inserted, insert_at_head-cons}

module _ (compare : Ptr → Ptr → ℤ) where
  -- The item goes in front of the first that it is not above.
  abbrev pub place : Ptr × Ptr → Cells → Cells
  place x [] = x ∷ []
  place x (y ∷ ys) = if ltb_ℤ (pos 0) (compare x.1 y.1) then y ∷ place x ys else x ∷ y ∷ ys

  -- In front of the first item it goes only where it is below that.
  abbrev pub in_order : Ptr × Ptr → Cells → Cells
  in_order x [] = x ∷ []
  in_order x (y ∷ ys) = if ltb_ℤ (compare x.1 y.1) (pos 0) then x ∷ y ∷ ys else y ∷ place x ys

  lies_in-place :
      (p : Ptr) (x : Ptr × Ptr) (ys : Cells) → lies_in p (place x ys) ≡ ((p == x.0) || lies_in p ys)
  lies_in-place p x [] = refl
  lies_in-place p x (y ∷ ys) = ground (arith, lies_in-place p x ys)

  length-place : (x : Ptr × Ptr) (ys : Cells) → length (place x ys) ≡ suc (length ys)
  length-place x [] = refl
  length-place x (y ∷ ys) = ground (arith, length-place x ys)

  module _ (fresh v : Ptr) (new : fresh ≢ 0) where
    -- What the walk leaves over the node before.
    abbrev Placed : Memory → Ptr × Ptr → Cells → Memory → Type 0
    Placed h (p, u) ys g = Chain g p ((p, u) ∷ ys) × Around ((p, u) ∷ ys) h g

    -- One more node in front.
    Placed-link :
        {h g : Memory} {p q u w : Ptr} {ys : Cells}
        → Placed h (q, w) ys g
        → IsNode h p u q
        → lies_in p ((q, w) ∷ ys) ≡ false
        → Placed h (p, u) ((q, w) ∷ ys) g
    Placed-link {p} (chain, around) n out = (
      link (record { not_null = n.not_null; holds = around p out ∙ n.holds }) out chain,
      λ r o. around r (ground arith),
    )

    -- The new node between two others.
    link_between :
        {h : Memory} {p q u w : Ptr} {xs : Cells}
        → IsNode h fresh v 0
        → lies_in fresh ((p, u) ∷ (q, w) ∷ xs) ≡ false
        → IsNode h p u q
        → lies_in p ((q, w) ∷ xs) ≡ false
        → Chain h q ((q, w) ∷ xs)
        → Gives
            (λ _ g. Placed h (p, u) ((fresh, v) ∷ (q, w) ∷ xs) g)
            ((set_next p fresh >> set_next fresh q) h)
    unfolding put
    link_between {h} {p} {q} {u} f free n out c =
        let moved : IsNode (put h p (some (record { item = u; next = fresh }))) fresh v 0 = record {
          not_null = f.not_null;
          holds = ground (arith, f.holds);
        } in
        rw (set_next-node n fresh, set_next-node moved q)
          (gives (
            link (record { not_null = n.not_null; holds = ground arith }) (ground arith)
                (link (record { not_null = f.not_null; holds = ground arith }) (ground arith)
                  (Chain-put fresh _ (Chain-put p _ c out) (ground arith))),
            λ r o. ground arith,
          ))

    -- The new node behind the last.
    link_last :
        {h : Memory} {p u : Ptr}
        → IsNode h fresh v 0
        → lies_in fresh ((p, u) ∷ []) ≡ false
        → IsNode h p u 0
        → Gives (λ _ g. Placed h (p, u) ((fresh, v) ∷ []) g) (set_next p fresh h)
    unfolding put
    link_last {p} f free n = rw (set_next-node n fresh) (
        gives (
          link (record { not_null = n.not_null; holds = ground arith }) (ground arith)
              (link (record { not_null = f.not_null; holds = ground (arith, f.holds) }) refl end),
          λ r o. ground arith,
        ))

    -- The walk, from a node and its successor.
    insert_between-Chain :
        (fuel : ℕ) {h : Memory} {p q u w z : Ptr} {xs : Cells}
        → IsNode h fresh v 0
        → lies_in fresh ((p, u) ∷ (q, w) ∷ xs) ≡ false
        → IsNode h p u q
        → lies_in p ((q, w) ∷ xs) ≡ false
        → IsNode h q w z
        → lies_in q xs ≡ false
        → Chain h z xs
        → length xs < fuel
        → Gives
            (λ _ g. Placed h (p, u) (place (fresh, v) ((q, w) ∷ xs)) g)
            (insert_between fuel (some compare) fresh v p q h)
    unfolding insert_between call_comparator put
    insert_between-Chain zero f free n out n' out' c enough = absurd (omega arith)
    insert_between-Chain (suc fuel) {p} {q} {w} f free n out n' out' end enough =
        elim (Bool-cases (ltb_ℤ (pos 0) (compare v w))) [
          | inl above ↦
              rw (n'.not_null, fetch-node n', above)
                (Gives-mono (link_last f (ground arith) n')
                  λ _ g placed. Placed-link placed n (ground arith))
          | inr not_above ↦
              rw (n'.not_null, fetch-node n', not_above)
                (link_between f free n out (link n' out' end))
        ]
    insert_between-Chain (suc fuel) {p} {q} {w} f free n out n' out'
          (link {p = z} {v = t} {xs = xs'} m out'' c) enough =
        elim (Bool-cases (ltb_ℤ (pos 0) (compare v w))) [
          | inl above ↦
              rw (n'.not_null, fetch-node n', above, m.not_null)
                (Gives-mono
                  (insert_between-Chain fuel f (ground arith) n' out' m out'' c (omega arith))
                  λ _ g placed.
                    Placed-link placed n
                      (ground (arith, lies_in-place p (fresh, v) ((z, t) ∷ xs'))))
          | inr not_above ↦
              rw (n'.not_null, fetch-node n', not_above)
                (link_between f free n out (link n' out' (link m out'' c)))
        ]

    -- The new node in front of the first one.
    link_first :
        {h : Memory} {p : Ptr} {xs : Cells}
        → IsNode h fresh v 0
        → lies_in fresh xs ≡ false
        → Chain h p xs
        → Gives
            (λ _ g. Chain g fresh ((fresh, v) ∷ xs) × Around ((fresh, v) ∷ xs) h g)
            (set_next fresh p h)
    unfolding put
    link_first {p} f free c = rw (set_next-node f p) (
        gives (
          link (record { not_null = f.not_null; holds = ground arith }) free
              (Chain-put fresh _ c free),
          λ r o. ground arith,
        ))

    -- From the second node on.
    insert_behind :
        (fuel : ℕ) {h : Memory} {p u q : Ptr} {xs : Cells}
        → IsNode h fresh v 0
        → lies_in fresh ((p, u) ∷ xs) ≡ false
        → IsNode h p u q
        → lies_in p xs ≡ false
        → Chain h q xs
        → length xs < fuel
        → Gives
            (λ _ g. Placed h (p, u) (place (fresh, v) xs) g)
            ((if q == 0 then set_next p fresh else insert_between fuel (some compare) fresh v p q)
              h)
    insert_behind fuel f free n out end enough = link_last f free n
    insert_behind fuel f free n out (link m out' c) enough =
        rw m.not_null (insert_between-Chain fuel f free n out m out' c (omega arith))

  Around-put :
      (h g : Memory) (fresh : Ptr) (c : Option Node) (ys : Cells)
      → lies_in fresh ys ≡ true
      → Around ys (put h fresh c) g
      → Around ys h g
  unfolding put
  Around-put h g fresh c ys inside around r o = elim (Bool-cases (r == fresh)) [
    | inl same ↦
        let e : r ≡ fresh = (ground arith) in
        absurd (true_false (sym inside ∙ ap (λ z. lies_in z ys) (sym e) ∙ o))
    | inr apart ↦ ground (arith, around r o)
  ]
    where
      true_false : true ≡ false → ⊥
      true_false e = cc

  insert_in_order-Chain :
      (fresh v : Ptr) (h : Memory) (l : CList) (p u : Ptr) (xs : Cells)
      → Chain h l.head ((p, u) ∷ xs)
      → l.length ≡ suc (length xs)
      → l.comparator ≡ some compare
      → v ≢ 0
      → fresh ≢ 0
      → h fresh ≡ none
      → Gives (Inserted h (in_order (fresh, v) ((p, u) ∷ xs))) (insert_in_order fresh l v h)
  unfolding insert_in_order call_comparator put
  insert_in_order-Chain fresh v h l p u xs (link {q} n out c) counted compares item new free =
      let nonzero : (v == 0) ≡ false = (ground arith) in
      let nonempty : (l.length == 0) ≡ false = (ground arith) in
      let apart = not-lies_in-of_free fresh (link n out c) free in
      let g = put h fresh (some (node v 0)) in
      let f : IsNode g fresh v 0 = record { not_null = ground arith; holds = ground arith } in
      let n' : IsNode g l.head u q = record {
        not_null = n.not_null;
        holds = ground (arith, n.holds);
      } in
      let c' = Chain-put fresh (some (node v 0)) c (ground arith) in
      elim (Bool-cases (ltb_ℤ (compare v u) (pos 0))) [
        | inl below ↦
            rw (nonzero, nonempty, fetch-node n', compares, below)
              (Gives-bind (link_first fresh v new f apart (link n' out c')) λ _ r (chain, around).
                gives (
                  record { chain = chain; counted = omega arith },
                  Around-put h r fresh _ ((fresh, v) ∷ (l.head, u) ∷ xs) (ground arith) around,
                ))
        | inr not_below ↦
            rw (nonzero, nonempty, fetch-node n', compares, not_below)
              (Gives-bind (insert_behind fresh v new (suc l.length) f apart n' out c' (omega arith))
                λ _ r (chain, around). gives (
                  record { chain = chain; counted = omega (arith, length-place (fresh, v) xs) },
                  Around-put h r fresh _ ((l.head, u) ∷ place (fresh, v) xs)
                      (ground (arith, lies_in-place fresh (fresh, v) xs)) around,
                ))
      ]

  -- `InsertInOrder` of an item that is not NULL, into a well-formed list that was made with a
  -- comparator, with a new node at a free address that is not NULL, returns: it puts the item at its
  -- place, counts it and writes only to the list's own nodes and to the new one.
  pub insert_in_order-in_order :
      (fresh v : Ptr) (h : Memory) (l : CList) (xs : Cells)
      → IsList h l xs
      → l.comparator ≡ some compare
      → v ≢ 0
      → fresh ≢ 0
      → h fresh ≡ none
      → Gives (Inserted h (in_order (fresh, v) xs)) (insert_in_order fresh l v h)
  unfolding insert_in_order
  insert_in_order-in_order fresh v h l [] is compares item new free =
      let nonzero : (v == 0) ≡ false = (ground arith) in
      let empty : (l.length == 0) ≡ true = (ground (arith, is.counted)) in
      rw (nonzero, empty) (insert_at_head-cons fresh v h l [] is item new free)
  insert_in_order-in_order fresh v h l ((p, u) ∷ xs) is compares item new free =
      insert_in_order-Chain fresh v h l p u xs is.chain is.counted compares item new free
