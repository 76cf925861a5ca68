-- ===== src/LinkedList/Rear.antt =====
-- `removeRear` of src/linkedlist.c on a list in memory.
use zbid.Base.{
  ◌∙◌, ℕ, zero, suc, ◌<◌, ◌≡◌, refl, true, false, none, [], ◌∷◌, ◌++◌, arith, ◌==◌, length,
  length-append,
}
use zbid.LinkedList.Nodes.{Ptr, Memory, put, Gives, gives, Gives-mono, Gives-bind}
use zbid.LinkedList.Chain.{
  Cells, lies_in, IsNode, Chain, end, link, fetch-node, set_next-node, release-node, lies_in-append,
}
use zbid.LinkedList.Code.{CList, drop_last, remove_rear}
use zbid.LinkedList.Insert.{IsList}
use zbid.LinkedList.Remove.{Removed, Unlinked, remove_front-cons}

-- The last node comes in its parts.
module _ (a v : Ptr) where
  not-empty : {h : Memory} {p : Ptr} (xs : Cells) → Chain h p (xs ++ (a, v) ∷ []) → (p == 0) ≡ false
  not-empty [] (link n out c) = n.not_null
  not-empty (x ∷ xs) (link n out c) = n.not_null

  -- The walk to the last node but one.
  drop_last-Chain :
      (fuel : ℕ) {h : Memory} {p u q : Ptr} (xs : Cells)
      → IsNode h p u q
      → lies_in p (xs ++ (a, v) ∷ []) ≡ false
      → Chain h q (xs ++ (a, v) ∷ [])
      → length xs < fuel
      → Gives (Unlinked h (p, u) (a, v) (xs ++ (a, v) ∷ []) xs) (drop_last fuel p h)
  unfolding drop_last put
  drop_last-Chain zero xs n out c enough = absurd (omega arith)
  drop_last-Chain (suc fuel) {h} {p} {u} [] n out (link m out' end) enough =
      let moved : IsNode (put h a none) p u a = record {
        not_null = n.not_null;
        holds = ground (arith, n.holds);
      } in
      rw (fetch-node n, fetch-node m, release-node m, set_next-node moved 0)
        (gives (
          refl,
          link (record { not_null = n.not_null; holds = ground arith }) refl end,
          ground arith,
          ground arith,
        ))
  drop_last-Chain (suc fuel) {p} ((r, w) ∷ xs) n out (link {q = z} m out' c) enough =
      let onward = not-empty xs c in
      rw (fetch-node n, fetch-node m, onward)
        (Gives-mono (drop_last-Chain fuel xs m out' c (omega arith))
          λ item g (same, chain, around, freed). (
            same,
            link (record { not_null = n.not_null; holds = around p out ∙ n.holds })
                (ground (arith, lies_in-append p xs ((a, v) ∷ []))) chain,
            λ r o. around r (ground arith),
            freed,
          ))

  remove_rear-Chain :
      (h : Memory) (l : CList) (x : Ptr × Ptr) (xs : Cells)
      → Chain h l.head (x ∷ xs ++ (a, v) ∷ [])
      → l.length ≡ suc (suc (length xs))
      → Gives (Removed h (a, v) (x ∷ xs ++ (a, v) ∷ []) (x ∷ xs)) (remove_rear l h)
  unfolding remove_rear
  remove_rear-Chain h l x xs (link n out c) counted =
      let nonempty : (l.length == 0) ≡ false = (ground arith) in
      let several : (l.length == 1) ≡ false = (ground arith) in
      rw (nonempty, several)
        (Gives-bind (drop_last-Chain (suc l.length) xs n out c (omega arith))
          λ item g (same, chain, around, freed).
            gives (same, record { chain = chain; counted = omega arith }, around, freed))

  -- On a well-formed list that is not empty, `removeRear` returns the last item, frees its node and
  -- leaves the others in their order; no memory outside the list's nodes changes.
  remove_rear-last :
      (h : Memory) (l : CList) (xs : Cells)
      → IsList h l (xs ++ (a, v) ∷ [])
      → Gives (Removed h (a, v) (xs ++ (a, v) ∷ []) xs) (remove_rear l h)
  unfolding remove_rear
  remove_rear-last h l [] is =
      let nonempty : (l.length == 0) ≡ false = (ground (arith, is.counted)) in
      let one : (l.length == 1) ≡ true = (ground (arith, is.counted)) in
      rw (nonempty, one) (remove_front-cons h l a v [] is)
  remove_rear-last h l (x ∷ xs) is =
      remove_rear-Chain h l x xs is.chain
        (omega (arith, is.counted, length-append (x ∷ xs) ((a, v) ∷ [])))
