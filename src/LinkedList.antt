-- ===== src/LinkedList.antt =====
-- The list type of src/linkedlist.c: `Contents` has what its functions do to the sequence of a list's
-- items, which is the view that the handlers of the server have of it; `Code` has the functions on
-- nodes and pointers.
pub mod Contents
pub mod Nodes
pub mod Chain
pub mod Code
pub mod Insert
pub mod Remove
pub mod Rear
pub mod Order
pub mod Sorted
pub mod Walk
