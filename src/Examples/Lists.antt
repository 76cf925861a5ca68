-- ===== src/Examples/Lists.antt =====
-- The list operations on a list of two nodes, at the addresses 8 and 16.
use zbid.Base.{◌≡◌, refl, some, none, [], ◌∷◌, arith, ◌==◌, if◌then◌else◌, ℤ, pos, negsuc, ltb}
use zbid.LinkedList.Nodes.{Ptr, Memory, Gives, result, fault}
use zbid.LinkedList.Chain.{end, link}
use zbid.LinkedList.Code.{CList, node, insert_at_tail, insert_in_order, remove_by_index}
use zbid.LinkedList.Insert.{IsList, Inserted, insert_at_tail-append}
use zbid.LinkedList.Walk.{walk_on, next_of, walk_on-removed}
use zbid.LinkedList.Sorted.{IsConsistent, SortedOf, insert_in_order-IsSorted}
use zbid.LinkedList.Remove.{Removed, remove_by_index-remove_nth}

abbrev memory : Memory
memory p = if p == 8 then some (node 100 16) else if p == 16 then some (node 200 0) else none

abbrev pair : CList
pair = record { head = 8; length = 2; comparator = none }

pair-IsList : IsList memory pair ((8, 100) ∷ (16, 200) ∷ [])
pair-IsList = record {
  chain =
      link (record { not_null = refl; holds = refl }) refl
        (link (record { not_null = refl; holds = refl }) refl end);
  counted = refl;
}

insert_at_tail-append_example :
    Gives
      (Inserted memory ((8, 100) ∷ (16, 200) ∷ (24, 300) ∷ []))
      (insert_at_tail 24 pair 300 memory)
insert_at_tail-append_example =
    insert_at_tail-append 24 300 memory pair _ pair-IsList (omega arith) (omega arith) refl

remove_by_index-remove_nth_example :
    Gives
      (Removed memory (16, 200) ((8, 100) ∷ (16, 200) ∷ []) ((8, 100) ∷ []))
      (remove_by_index pair (pos 1) memory)
remove_by_index-remove_nth_example =
    remove_by_index-remove_nth 1 memory pair _ 16 200 pair-IsList refl

-- The order of the addresses.
abbrev by_address : Ptr → Ptr → ℤ
by_address a b = if ltb a b then negsuc 0 else if a == b then pos 0 else pos 1

by_address-IsConsistent : IsConsistent by_address
by_address-IsConsistent a b = ground arith

abbrev ordered : CList
ordered = record pair { comparator = some by_address }

ordered-IsList : IsList memory ordered ((8, 100) ∷ (16, 200) ∷ [])
ordered-IsList = record { chain = pair-IsList.chain; counted = refl }

insert_in_order-IsSorted_example :
    Gives
      (SortedOf by_address memory ((24, 150) ∷ (8, 100) ∷ (16, 200) ∷ []))
      (insert_in_order 24 ordered 150 memory)
insert_in_order-IsSorted_example =
    insert_in_order-IsSorted by_address 24 150 memory ordered _ ordered-IsList (refl, tt)
      by_address-IsConsistent refl (omega arith) (omega arith) refl

walk_on-removed_example :
    Gives
      (λ _ g. walk_on 16 g ≡ (if 16 == 8 then fault else result (next_of 16 ((16, 200) ∷ [])) g))
      (remove_by_index pair (pos 0) memory)
walk_on-removed_example = walk_on-removed 16 0 memory pair _ 8 100 pair-IsList refl refl
