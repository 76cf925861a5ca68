-- ===== src/LinkedList/Remove.antt =====
-- `removeFront` and `removeByIndex` of src/linkedlist.c on a list in memory.
use zbid.Base.{
  eq_ℤ_refl, subst, get_elem?, ℕ, zero, suc, ◌+◌, ◌-◌, ◌<◌, ◌≡◌, refl, true, false, none, some, [],
  ◌∷◌, arith, ◌==◌, length, pos, negsuc, eq_ℤ, ltb_ℤ, ◌∙◌,
}
use mathlib.Core.Option.{some-injective}
use zbid.LinkedList.Contents.{remove_nth}
use zbid.LinkedList.Nodes.{Ptr, Memory, put, fault, result, Gives, gives, Gives-mono, Gives-bind}
use zbid.LinkedList.Chain.{
  Cells, lies_in, IsNode, Chain, end, link, Around, fetch-node, set_next-node, release-node,
  Chain-put,
}
use zbid.LinkedList.Code.{CList, remove_front, unlink, remove_after, remove_by_index}
use zbid.LinkedList.Insert.{IsList}

-- What a removal leaves: the other nodes in their order, the removed one free.
abbrev pub Removed : Memory → Ptr × Ptr → Cells → Cells → Ptr × CList → Memory → Type 0
Removed h (p, v) xs ys (item, l) g = (item ≡ v) × IsList g l ys × Around xs h g × (g p ≡ none)

remove_front-Chain :
    (h : Memory) (l : CList) (p v : Ptr) (xs : Cells)
    → Chain h l.head ((p, v) ∷ xs)
    → l.length ≡ suc (length xs)
    → Gives (Removed h (p, v) ((p, v) ∷ xs) xs) (remove_front l h)
unfolding remove_front put
remove_front-Chain h l p v xs (link n out c) counted =
    let nonempty : (l.length == 0) ≡ false = (ground arith) in
    rw (nonempty, fetch-node n, release-node n)
      (gives (
        refl,
        record { chain = Chain-put p none c out; counted = omega arith },
        ground arith,
        ground arith,
      ))

-- On a well-formed list that is not empty, `removeFront` returns the first item, frees its node and
-- leaves the rest of the list; no memory outside the list's nodes changes.
pub remove_front-cons :
    (h : Memory) (l : CList) (p v : Ptr) (xs : Cells)
    → IsList h l ((p, v) ∷ xs)
    → Gives (Removed h (p, v) ((p, v) ∷ xs) xs) (remove_front l h)
remove_front-cons h l p v xs is = remove_front-Chain h l p v xs is.chain is.counted

eq_ℤ_pos : (i k : ℕ) → eq_ℤ (pos i) (pos k) ≡ (i == k)
unfolding eq_ℤ
eq_ℤ_pos i k = ground arith

eq_ℤ_negsuc : (i k : ℕ) → eq_ℤ (pos i) (negsuc k) ≡ false
unfolding eq_ℤ
eq_ℤ_negsuc i k = ground arith

negsuc-eq_ℤ : (k : ℕ) → eq_ℤ (negsuc k) (pos 0) ≡ false
unfolding eq_ℤ
negsuc-eq_ℤ k = ground arith

get_elem?-lt : (xs : Cells) (i : ℕ) {c : Ptr × Ptr} → get_elem? xs i ≡ some c → i < length xs
get_elem?-lt [] i at = cc
get_elem?-lt (x ∷ xs) zero at = omega arith
get_elem?-lt (x ∷ xs) (suc i) at = omega (arith, get_elem?-lt xs i at)

-- The state after `unlink`, over the node before.
abbrev pub Unlinked : Memory → Ptr × Ptr → Ptr × Ptr → Cells → Cells → Ptr → Memory → Type 0
Unlinked h (p, u) (c, v) xs ys item g =
    (item ≡ v) × Chain g p ((p, u) ∷ ys) × Around ((p, u) ∷ xs) h g × (g c ≡ none)

unlink-Chain :
    {h : Memory} {p u c v q : Ptr} {xs : Cells}
    → IsNode h p u c
    → lies_in p ((c, v) ∷ xs) ≡ false
    → IsNode h c v q
    → lies_in c xs ≡ false
    → Chain h q xs
    → Gives (Unlinked h (p, u) (c, v) ((c, v) ∷ xs) xs) (unlink p c h)
unfolding unlink put
unlink-Chain {h} {p} {u} {c} {v} {q} n out n' out' chain =
    let moved : IsNode (put h p (some (record { item = u; next = q }))) c v q = record {
      not_null = n'.not_null;
      holds = ground (arith, n'.holds);
    } in
    rw (fetch-node n', set_next-node n q, release-node moved)
      (gives (
        refl,
        link (record { not_null = n.not_null; holds = ground arith }) (ground arith)
            (Chain-put c none (Chain-put p _ chain (ground arith)) out'),
        ground arith,
        ground arith,
      ))

lies_in-remove_nth :
    (p : Ptr) (xs : Cells) (m : ℕ) → lies_in p xs ≡ false → lies_in p (remove_nth xs m) ≡ false
lies_in-remove_nth p [] m out = refl
lies_in-remove_nth p (x ∷ xs) zero out = ground arith
lies_in-remove_nth p (x ∷ xs) (suc m) out = ground (arith, lies_in-remove_nth p xs m)

length-remove_nth :
    (xs : Cells) (m : ℕ) (c : Ptr × Ptr)
    → get_elem? xs m ≡ some c
    → length (remove_nth xs m) ≡ length xs - 1
length-remove_nth [] m c at = cc
length-remove_nth (x ∷ xs) zero c at = omega arith
length-remove_nth (x ∷ []) (suc m) c at = cc
length-remove_nth (x ∷ y ∷ xs) (suc m) c at = omega (arith, length-remove_nth (y ∷ xs) m c at)

-- The walk to the node at the index, `m` rounds on.
remove_after-Chain :
    (fuel i k m : ℕ) {h : Memory} {p u q : Ptr} {xs : Cells} {a v : Ptr}
    → IsNode h p u q
    → lies_in p xs ≡ false
    → Chain h q xs
    → get_elem? xs m ≡ some (a, v)
    → i + m ≡ k
    → m < fuel
    → Gives (Unlinked h (p, u) (a, v) xs (remove_nth xs m)) (remove_after fuel i (pos k) p q h)
unfolding remove_after
remove_after-Chain zero i k m n out chain at sum enough = absurd (omega arith)
remove_after-Chain (suc fuel) i k m n out end at sum enough = cc
remove_after-Chain (suc fuel) i k zero {h} {p} {u} n out
      (link {p = r} {v = w} {xs = xs'} n' out' chain) at sum enough =
    let here : (i == k) ≡ true = (ground arith) in
    rw (eq_ℤ_pos i k, here)
      (subst (λ c. Gives (Unlinked h (p, u) c ((r, w) ∷ xs') xs') (unlink p r h))
        (some-injective _ _ at) (unlink-Chain n out n' out' chain))
remove_after-Chain (suc fuel) i k (suc m) {p} n out (link {p = r} {v = w} {xs = xs'} n' out' chain)
      at sum enough =
    let later : (i == k) ≡ false = (ground arith) in
    rw (eq_ℤ_pos i k, later, fetch-node n')
      (Gives-mono (remove_after-Chain fuel (i + 1) k m n' out' chain at (omega arith) (omega arith))
        λ item g (same, rest, around, freed). (
          same,
          link (record { not_null = n.not_null; holds = around p out ∙ n.holds })
              (ground (arith, lies_in-remove_nth p xs' m)) rest,
          λ z o. around z (ground arith),
          freed,
        ))

remove_by_index-Chain :
    (k : ℕ) (h : Memory) (l : CList) (x : Ptr × Ptr) (xs : Cells) (a v : Ptr)
    → Chain h l.head (x ∷ xs)
    → l.length ≡ suc (length xs)
    → get_elem? (x ∷ xs) k ≡ some (a, v)
    → k < l.length
    → Gives (Removed h (a, v) (x ∷ xs) (remove_nth (x ∷ xs) k)) (remove_by_index l (pos k) h)
unfolding remove_by_index put
remove_by_index-Chain zero h l x xs a v (link {q = q} n out c) counted at inside =
    let within : ltb_ℤ (pos 0) (pos l.length) ≡ true = (ground arith) in
    let first : eq_ℤ (pos 0) (pos 0) ≡ true = eq_ℤ_refl (pos 0) in
    rw (within, first, fetch-node n, release-node n)
      (subst
        (λ y.
          Gives (Removed h y (x ∷ xs) xs)
            (result (x.1, record l { head = q; length = l.length - 1 }) (put h l.head none)))
        (some-injective _ _ at)
        (gives (
          refl,
          record { chain = Chain-put l.head none c out; counted = omega arith },
          ground arith,
          ground arith,
        )))
remove_by_index-Chain (suc k) h l x xs a v (link n out c) counted at inside =
    let within : ltb_ℤ (pos (suc k)) (pos l.length) ≡ true = (ground arith) in
    let walks : eq_ℤ (pos (suc k)) (pos 0) ≡ false = (rw (eq_ℤ_pos (suc k) 0) (ground arith)) in
    let starts : eq_ℤ (pos 0) (pos (suc k)) ≡ false = (rw (eq_ℤ_pos 0 (suc k)) (ground arith)) in
    rw (within, walks, starts, fetch-node n)
      (Gives-bind (remove_after-Chain l.length 1 (suc k) k n out c at (omega arith) (omega arith))
        λ item g (same, rest, around, freed). gives (
          same,
          record {
            chain = rest;
            counted = omega (arith, counted, length-remove_nth xs k (a, v) at);
          },
          around,
          freed,
        ))

-- On a well-formed list, `removeByIndex` at an index within the list returns the item there, frees
-- its node and keeps the others in their order; no memory outside the list's nodes changes.
pub remove_by_index-remove_nth :
    (k : ℕ) (h : Memory) (l : CList) (xs : Cells) (a v : Ptr)
    → IsList h l xs
    → get_elem? xs k ≡ some (a, v)
    → Gives (Removed h (a, v) xs (remove_nth xs k)) (remove_by_index l (pos k) h)
remove_by_index-remove_nth k h l [] a v is at = cc
remove_by_index-remove_nth k h l (x ∷ xs) a v is at =
    remove_by_index-Chain k h l x xs a v is.chain is.counted at
      (omega (arith, get_elem?-lt (x ∷ xs) k at, is.counted))

-- A walk to a negative index passes every node and then reads through NULL.
remove_after-negative :
    (fuel i k prev : ℕ) {h : Memory} {p : Ptr} {xs : Cells}
    → Chain h p xs
    → length xs < fuel
    → remove_after fuel i (negsuc k) prev p h ≡ fault
unfolding remove_after
remove_after-negative zero i k prev c enough = absurd (omega arith)
remove_after-negative (suc fuel) i k prev end enough = rw (eq_ℤ_negsuc i k) refl
remove_after-negative (suc fuel) i k prev (link {p} n out c) enough =
    rw (eq_ℤ_negsuc i k, fetch-node n) (remove_after-negative fuel (i + 1) k p c (omega arith))

-- On a well-formed list, `removeByIndex` at a negative index walks past the end and reads through
-- NULL.
remove_by_index-negative :
    (k : ℕ) (h : Memory) (l : CList) (xs : Cells)
    → IsList h l xs
    → remove_by_index l (negsuc k) h ≡ fault
unfolding remove_by_index
remove_by_index-negative k h l xs is =
    let within : ltb_ℤ (negsuc k) (pos l.length) ≡ true = (ground arith) in
    let walks : eq_ℤ (negsuc k) (pos 0) ≡ false = negsuc-eq_ℤ k in
    rw
      (
        within,
        walks,
        remove_after-negative (suc l.length) 0 k 0 is.chain (omega (arith, is.counted)),
      )
      refl
