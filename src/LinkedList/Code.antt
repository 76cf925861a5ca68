-- ===== src/LinkedList/Code.antt =====
-- The functions of src/linkedlist.c. A `list_t` lies outside the nodes' memory, so a function that
-- changes one returns the new value; it is never NULL here. A loop takes fuel for the rounds that
-- it may go; `Insert` and `Remove` show that `length + 1` rounds are enough.
use zbid.Base.{ℕ, zero, suc, ◌+◌, ◌-◌, ◌==◌, Option, none, some, ℤ, pos, ltb_ℤ, eq_ℤ, if◌then◌else◌}
use zbid.LinkedList.Nodes.{
  Ptr, Node, C, result, fault, unfinished, ◌>>=◌, ◌>>◌, fetch, fill, set_next, release,
}

-- `list_t`; `printer` and `deleter` are only stored. `length` counts allocated nodes.
pub record CList : Type 0 where
  pub head : Ptr
  pub length : ℕ
  pub comparator : Option (Ptr → Ptr → ℤ)

-- `CreateList`.
unfoldable pub create_list : Option (Ptr → Ptr → ℤ) → CList
create_list compare = record { head = 0; length = 0; comparator = compare }

abbrev pub node : Ptr → Ptr → Node
node v q = record { item = v; next = q }

-- `InsertAtHead`, where `malloc` returns `fresh`.
unfoldable pub insert_at_head : Ptr → CList → Ptr → C CList
unfolding fill
insert_at_head fresh list val_ref = if val_ref == 0 then result list else (do
  let head = if list.length == 0 then 0 else list.head
  fill fresh (node val_ref head)
  result (record list { head = fresh; length = list.length + 1 }))

-- The walk of `InsertAtTail` to the last node, and the new node behind it.
unfoldable pub append_after : ℕ → Ptr → Ptr → Ptr → C (Unit {0})
unfolding fetch fill set_next
append_after zero fresh val_ref current = λ _. unfinished
append_after (suc fuel) fresh val_ref current = do
  n ← fetch current
  if n.next == 0
      then (do set_next current fresh; fill fresh (node val_ref 0))
      else append_after fuel fresh val_ref n.next

-- `InsertAtTail`.
unfoldable pub insert_at_tail : Ptr → CList → Ptr → C CList
unfolding append_after
insert_at_tail fresh list val_ref =
    if val_ref == 0
    then result list
    else if list.length == 0
    then insert_at_head fresh list val_ref
    else (do
      append_after (suc list.length) fresh val_ref list.head
      result (record list { length = list.length + 1 }))

-- A call of the comparator that the list was made with, which may be NULL.
unfoldable pub call_comparator : Option (Ptr → Ptr → ℤ) → Ptr → Ptr → C ℤ
call_comparator none a b = λ _. fault
call_comparator (some compare) a b = result (compare a b)

-- `while (current != NULL)` of `InsertInOrder`.
unfoldable pub insert_between : ℕ → Option (Ptr → Ptr → ℤ) → Ptr → Ptr → Ptr → Ptr → C (Unit {0})
unfolding fetch set_next call_comparator
insert_between zero comparator fresh val_ref prev current = λ _. unfinished
insert_between (suc fuel) comparator fresh val_ref prev current =
    if current == 0 then result tt else (do
      n ← fetch current
      order ← call_comparator comparator val_ref n.item
      if ltb_ℤ (pos 0) order
          then (if n.next == 0
              then set_next current fresh
              else insert_between fuel comparator fresh val_ref current n.next)
          else (do set_next prev fresh; set_next fresh current))

-- `InsertInOrder`, where `malloc` returns `fresh`; `new_node->data` is `val_ref` throughout.
unfoldable pub insert_in_order : Ptr → CList → Ptr → C CList
unfolding fetch fill set_next call_comparator insert_between
insert_in_order fresh list val_ref =
    if val_ref == 0
    then result list
    else if list.length == 0
    then insert_at_head fresh list val_ref
    else (do
      fill fresh (node val_ref 0)
      n ← fetch list.head
      order ← call_comparator list.comparator val_ref n.item
      if ltb_ℤ order (pos 0)
          then (do
            set_next fresh list.head
            result (record list { head = fresh; length = list.length + 1 }))
          else (do
            if n.next == 0
                then set_next list.head fresh
                else insert_between (suc list.length) list.comparator fresh val_ref list.head n.next
            result (record list { length = list.length + 1 })))

-- `removeFront`: the item, or NULL from an empty list.
unfoldable pub remove_front : CList → C (Ptr × CList)
unfolding fetch release
remove_front list = if list.length == 0 then result (0, list) else (do
  n ← fetch list.head
  release list.head
  result (n.item, record list { head = n.next; length = list.length - 1 }))

-- The walk of `removeRear` to the last node but one, and the end of the list there.
unfoldable pub drop_last : ℕ → Ptr → C Ptr
unfolding fetch set_next release
drop_last zero current = λ _. unfinished
drop_last (suc fuel) current = do
  n ← fetch current
  m ← fetch n.next
  if m.next == 0
      then (do release n.next; set_next current 0; result m.item)
      else drop_last fuel n.next

-- `removeRear`.
unfoldable pub remove_rear : CList → C (Ptr × CList)
unfolding drop_last
remove_rear list =
    if list.length == 0
    then result (0, list)
    else if list.length == 1
    then remove_front list
    else (do
      item ← drop_last (suc list.length) list.head
      result (item, record list { length = list.length - 1 }))

-- `prev->next = current->next; retval = current->data; free(current);`
unfoldable pub unlink : Ptr → Ptr → C Ptr
unfolding fetch set_next release
unlink prev current = do n ← fetch current; set_next prev n.next; release current; result n.item

-- `while (i++ != index)`, and what follows it.
unfoldable pub remove_after : ℕ → ℕ → ℤ → Ptr → Ptr → C Ptr
unfolding fetch unlink
remove_after zero i index prev current = λ _. unfinished
remove_after (suc fuel) i index prev current =
    if eq_ℤ (pos i) index
    then unlink prev current
    else (do n ← fetch current; remove_after fuel (i + 1) index current n.next)

-- `removeByIndex`.
unfoldable pub remove_by_index : CList → ℤ → C (Ptr × CList)
unfolding remove_after
remove_by_index list index =
    if ltb_ℤ index (pos list.length)
    then (if eq_ℤ index (pos 0)
        then (do
          n ← fetch list.head
          release list.head
          result (n.item, record list { head = n.next; length = list.length - 1 }))
        else (do
          item ← remove_after (suc list.length) 0 index 0 list.head
          result (item, record list { length = list.length - 1 })))
    else result (0, list)
