-- ===== src/LinkedList/Walk.antt =====
-- A walk over a list, as `run_tick` of src/finalsample.c does it without a semaphore, while another
-- thread takes a node out.
use zbid.Base.{
  ◌≡◌, refl, ◌∙◌, sym, ap, subst, Bool-cases, inl, inr, true, false, some, none, [], ◌∷◌, ℕ, zero,
  suc, get_elem?, ◌==◌, pos, arith, if◌then◌else◌,
}
use mathlib.Core.Option.{some-injective}
use zbid.LinkedList.Contents.{remove_nth}
use zbid.LinkedList.Nodes.{Ptr, Memory, C, result, fault, fetch, ◌>>=◌, Gives, Gives-mono}
use zbid.LinkedList.Chain.{Cells, lies_in, Chain, end, link, fetch-node}
use zbid.LinkedList.Code.{CList, remove_by_index}
use zbid.LinkedList.Insert.{IsList}
use zbid.LinkedList.Remove.{remove_by_index-remove_nth}

-- `current = current->next`.
unfoldable pub walk_on : Ptr → C Ptr
unfolding fetch
walk_on current = do n ← fetch current; result n.next

-- The first address, and the one behind an address; NULL at the end.
abbrev pub first : Cells → Ptr
first [] = 0
first ((p, _) ∷ xs) = p

abbrev pub next_of : Ptr → Cells → Ptr
next_of p [] = 0
next_of p ((q, _) ∷ xs) = if p == q then first xs else next_of p xs

Chain-first : {h : Memory} {p : Ptr} {xs : Cells} → Chain h p xs → first xs ≡ p
Chain-first end = refl
Chain-first (link n out c) = refl

walk_on-next_of :
    (b : Ptr) {h : Memory} {p : Ptr} {xs : Cells}
    → Chain h p xs
    → lies_in b xs ≡ true
    → walk_on b h ≡ result (next_of b xs) h
unfolding walk_on
walk_on-next_of b {h} end inside = cc
walk_on-next_of b {h} (link {p} {q} {xs = xs} n out c) inside = elim (Bool-cases (b == p)) [
  | inl here ↦
      let e : b ≡ p = (ground arith) in
      rw (here, Chain-first c)
        (subst (λ y. walk_on y h ≡ result q h) (sym e) (rw (fetch-node n) refl))
  | inr other ↦ rw other (walk_on-next_of b c (rw other at inside))
]

-- Whoever is not taken out stays.
lies_in-stays :
    (b a v : Ptr) (xs : Cells) (k : ℕ)
    → get_elem? xs k ≡ some (a, v)
    → lies_in b xs ≡ true
    → (b == a) ≡ false
    → lies_in b (remove_nth xs k) ≡ true
lies_in-stays b a v [] k at inside other = cc
lies_in-stays b a v (x ∷ xs) zero at inside other =
    let same : x.0 ≡ a = ap (λ y. y.0) (some-injective x (a, v) at) in
    let apart : (b == x.0) ≡ false = (rw same other) in rw apart at inside
lies_in-stays b a v (x ∷ xs) (suc k) at inside other = elim (Bool-cases (b == x.0)) [
  | inl here ↦ rw here refl
  | inr apart ↦ rw apart (lies_in-stays b a v xs k at (rw apart at inside) other)
]

-- On a well-formed list, while a walk stands at one of its nodes, another thread takes a node out
-- by `removeByIndex`: the walk goes on to the node that then follows, or to NULL behind the last;
-- where it stands at the node that was taken out, it reads from freed memory.
pub walk_on-removed :
    (b : Ptr) (k : ℕ) (h : Memory) (l : CList) (xs : Cells) (a v : Ptr)
    → IsList h l xs
    → get_elem? xs k ≡ some (a, v)
    → lies_in b xs ≡ true
    → Gives
        (λ _ g. walk_on b g ≡ (if b == a then fault else result (next_of b (remove_nth xs k)) g))
        (remove_by_index l (pos k) h)
unfolding walk_on fetch
walk_on-removed b k h l xs a v is at inside =
    Gives-mono (remove_by_index-remove_nth k h l xs a v is at) λ (item, m) g (_, rest, _, freed).
      elim (Bool-cases (b == a)) [
        | inl hit ↦
            let e : b ≡ a = (ground arith) in
            let gone : g b ≡ none = (ap g e ∙ freed) in
            elim (Bool-cases (b == 0)) [
              | inl null ↦ rw (hit, null) refl
              | inr address ↦ rw (hit, address, gone) refl
            ]
        | inr miss ↦
            rw miss (walk_on-next_of b rest.chain (lies_in-stays b a v xs k at inside miss))
      ]
