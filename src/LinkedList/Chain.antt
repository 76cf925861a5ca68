-- ===== src/LinkedList/Chain.antt =====
-- The chain of nodes that a list consists of, and the memory around it.
use zbid.Base.{
  Bool-cases, inl, inr, sym, ap, ◌∙◌, ◌≡◌, refl, Bool, true, false, ◌||◌, Option, none, some, List,
  [], ◌∷◌, ◌++◌, arith, ◌==◌,
}
use zbid.LinkedList.Nodes.{Ptr, Node, Memory, put, fetch, set_next, release, fill, result}

-- The address and the item of each node, in order.
abbrev pub Cells : Type 0
Cells = List (Ptr × Ptr)

abbrev pub lies_in : Ptr → Cells → Bool
lies_in p [] = false
lies_in p ((q, _) ∷ xs) = (p == q) || lies_in p xs

-- At `p` lies a node with the item `v` and the successor `q`.
pub record IsNode (h : Memory) (p v q : Ptr) : Type 0 where
  pub not_null : (p == 0) ≡ false
  pub holds : h p ≡ some (record { item = v; next = q })

-- From `p` the nodes `xs` follow one another, all at distinct addresses, and the last ends in NULL.
pub data Chain (h : Memory) : Ptr → Cells → Type 0 where
  end : Chain h 0 []
  link :
      {p q v : Ptr} {xs : Cells}
      → IsNode h p v q
      → lies_in p xs ≡ false
      → Chain h q xs
      → Chain h p ((p, v) ∷ xs)

-- Memory differs at most at the addresses of `xs`.
abbrev pub Around : Cells → Memory → Memory → Type 0
Around xs h g = (p : Ptr) → lies_in p xs ≡ false → g p ≡ h p

module _ {h : Memory} {p v q : Ptr} (n : IsNode h p v q) where
  pub fetch-node : fetch p h ≡ result (record { item = v; next = q }) h
  unfolding fetch
  fetch-node = rw (n.not_null, n.holds) refl

  pub set_next-node :
      (r : Ptr) → set_next p r h ≡ result tt (put h p (some (record { item = v; next = r })))
  unfolding set_next fill
  set_next-node r = rw fetch-node refl

  pub release-node : release p h ≡ result tt (put h p none)
  unfolding release
  release-node = rw fetch-node refl

  pub IsNode-put : (r : Ptr) → IsNode (put h p (some (record { item = v; next = r }))) p v r
  unfolding put
  IsNode-put r = record { not_null = n.not_null; holds = ground arith }

module _ {h : Memory} where
  -- A chain survives what happens elsewhere.
  pub Chain-frame :
      {g : Memory} {p : Ptr} {xs : Cells}
      → Chain h p xs
      → ((q : Ptr) → lies_in q xs ≡ true → g q ≡ h q)
      → Chain g p xs
  Chain-frame end same = end
  Chain-frame (link {p} n out c) same =
      link (record { not_null = n.not_null; holds = ground (arith, n.holds, same p) }) out
        (Chain-frame c λ q i. same q (ground arith))

  pub Chain-put :
      {p : Ptr} {xs : Cells} (q : Ptr) (c : Option Node)
      → Chain h p xs
      → lies_in q xs ≡ false
      → Chain (put h q c) p xs
  unfolding put
  Chain-put q c chain out = Chain-frame chain λ r i. ground arith

  -- No node of a chain is free.
  pub not-lies_in-of_free :
      {p : Ptr} {xs : Cells} (q : Ptr) → Chain h p xs → h q ≡ none → lies_in q xs ≡ false
  not-lies_in-of_free q end free = refl
  not-lies_in-of_free q (link n out c) free = ground (arith, n.holds, not-lies_in-of_free q c free)

pub node-ne_free :
    {h : Memory} {p v q fresh : Ptr} → IsNode h p v q → h fresh ≡ none → (p == fresh) ≡ false
node-ne_free {h} {p} {fresh} n free = elim (Bool-cases (p == fresh)) [
  | inl same ↦
      let e : p ≡ fresh = (ground arith) in
      let holds = n.holds in absurd (none_some (sym (ap h e ∙ free) ∙ holds))
  | inr apart ↦ apart
]
  where
    none_some : {m : Node} → none ≡ some m → ⊥
    none_some q = cc

pub lies_in-append :
    (p : Ptr) (xs ys : Cells) → lies_in p (xs ++ ys) ≡ (lies_in p xs || lies_in p ys)
lies_in-append p [] ys = refl
lies_in-append p (x ∷ xs) ys = ground (arith, lies_in-append p xs ys)
