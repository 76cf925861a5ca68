-- ===== src/LinkedList/Sorted.antt =====
-- `InsertInOrder` of src/linkedlist.c on a list that is sorted.
use zbid.Base.{
  ◌≡◌, refl, ◌≢◌, true, false, none, some, [], ◌∷◌, arith, ℤ, pos, ltb_ℤ, inl, inr, Bool-cases,
}
use mathlib.Core.List.Permᴰ
use mathlib.Core.List.{Permᴰ}
use zbid.LinkedList.Nodes.{Ptr, Memory, Gives, Gives-mono}
use zbid.LinkedList.Chain.{Cells, Around}
use zbid.LinkedList.Code.{CList, insert_in_order}
use zbid.LinkedList.Insert.{IsList}
use zbid.LinkedList.Order.{place, in_order, insert_in_order-in_order}

module _ (compare : Ptr → Ptr → ℤ) where
  -- No item is above the next.
  abbrev pub IsSorted : Cells → Type 0
  IsSorted [] = Unit
  IsSorted (x ∷ []) = Unit
  IsSorted (x ∷ y ∷ ys) = (ltb_ℤ (pos 0) (compare x.1 y.1) ≡ false) × IsSorted (y ∷ ys)

  -- The comparator says the same from either side: where it does not put `a` below `b`, it does not
  -- put `b` above `a`.
  abbrev pub IsConsistent : Type 0
  IsConsistent =
      (a b : Ptr) → ltb_ℤ (compare a b) (pos 0) ≡ false → ltb_ℤ (pos 0) (compare b a) ≡ false

  not_both : (z : ℤ) → ltb_ℤ (pos 0) z ≡ true → ltb_ℤ z (pos 0) ≡ false
  not_both z above = ground arith

  not_both' : (z : ℤ) → ltb_ℤ z (pos 0) ≡ true → ltb_ℤ (pos 0) z ≡ false
  not_both' z below = ground arith

  place-IsSorted :
      (x y : Ptr × Ptr) (ys : Cells)
      → IsConsistent
      → ltb_ℤ (pos 0) (compare y.1 x.1) ≡ false
      → IsSorted (y ∷ ys)
      → IsSorted (y ∷ place compare x ys)
  place-IsSorted x y [] consistent ordered sorted = (ordered, tt)
  place-IsSorted x y (z ∷ ys) consistent ordered (first, sorted) =
      elim (Bool-cases (ltb_ℤ (pos 0) (compare x.1 z.1))) [
        | inl above ↦ rw above (
          first,
          place-IsSorted x z ys consistent (consistent x.1 z.1 (not_both (compare x.1 z.1) above))
              sorted,
        )
        | inr not_above ↦ rw not_above (ordered, (not_above, sorted))
      ]

  in_order-IsSorted :
      (x : Ptr × Ptr) (xs : Cells) → IsConsistent → IsSorted xs → IsSorted (in_order compare x xs)
  in_order-IsSorted x [] consistent sorted = tt
  in_order-IsSorted x (y ∷ ys) consistent sorted =
      elim (Bool-cases (ltb_ℤ (compare x.1 y.1) (pos 0))) [
        | inl below ↦ rw below (not_both' (compare x.1 y.1) below, sorted)
        | inr not_below ↦
            rw not_below (place-IsSorted x y ys consistent (consistent x.1 y.1 not_below) sorted)
      ]

  place-perm : (x : Ptr × Ptr) (ys : Cells) → Permᴰ (place compare x ys) (x ∷ ys)
  place-perm x [] = Permᴰ.refl (x ∷ [])
  place-perm x (y ∷ ys) = elim (Bool-cases (ltb_ℤ (pos 0) (compare x.1 y.1))) [
    | inl above ↦ rw above (Permᴰ.trans (Permᴰ.cons refl (place-perm x ys)) (Permᴰ.swap refl refl))
    | inr not_above ↦ rw not_above (Permᴰ.refl (x ∷ y ∷ ys))
  ]

  in_order-perm : (x : Ptr × Ptr) (ys : Cells) → Permᴰ (in_order compare x ys) (x ∷ ys)
  in_order-perm x [] = Permᴰ.refl (x ∷ [])
  in_order-perm x (y ∷ ys) = elim (Bool-cases (ltb_ℤ (compare x.1 y.1) (pos 0))) [
    | inl below ↦ rw below (Permᴰ.refl (x ∷ y ∷ ys))
    | inr not_below ↦
        rw not_below (Permᴰ.trans (Permᴰ.cons refl (place-perm x ys)) (Permᴰ.swap refl refl))
  ]

  -- From one memory to the next: a sorted list of exactly these nodes is made, and nothing is written
  -- but to them.
  pub record SortedOf (h : Memory) (xs : Cells) (l : CList) (g : Memory) : Type 0 where
    pub cells : Cells
    pub is_list : IsList g l cells
    pub sorted : IsSorted cells
    pub same_nodes : Permᴰ cells xs
    pub around : Around cells h g

  -- `InsertInOrder` of an item that is not NULL, into a sorted well-formed list that was made with a
  -- consistent comparator, with a new node at a free address that is not NULL, returns: it leaves a
  -- sorted well-formed list of the new node and the old ones, and writes to no other memory.
  pub insert_in_order-IsSorted :
      (fresh v : Ptr) (h : Memory) (l : CList) (xs : Cells)
      → IsList h l xs
      → IsSorted xs
      → IsConsistent
      → l.comparator ≡ some compare
      → v ≢ 0
      → fresh ≢ 0
      → h fresh ≡ none
      → Gives (SortedOf h ((fresh, v) ∷ xs)) (insert_in_order fresh l v h)
  insert_in_order-IsSorted fresh v h l xs is sorted consistent compares item new free =
      Gives-mono (insert_in_order-in_order compare fresh v h l xs is compares item new free)
        λ l' g (is', written). record {
          cells = in_order compare (fresh, v) xs;
          is_list = is';
          sorted = in_order-IsSorted (fresh, v) xs consistent sorted;
          same_nodes = in_order-perm (fresh, v) xs;
          around = written;
        }
