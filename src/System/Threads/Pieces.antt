-- ===== src/System/Threads/Pieces.antt =====
-- The pieces of src/helpers.c between two calls of a semaphore function.
use zbid.Base.{[], if◌then◌else◌, Option, none, some, List, ◌∷◌, ◌==◌, ℤ, pos}
use zbid.LinkedList.Contents.{insert_at_tail}
use zbid.Server.{CharPtr, Address, Auction}
use zbid.Server.Protocol.{MsgType}
use zbid.Server.Print.{print_int}
use zbid.Server.Monad.{
  M, pure, deref, ◌>>=◌, ◌>>◌, gets, modify, load_user, store_user, store_auction, add_int, sub_int,
  reply_with,
}
use zbid.Auctions.Close.{user_named}
use zbid.Auctions.Create.{claim, new_auction}

-- `closeAuction` between `P` and `V`: the winner pays, and has won the auction.
unfoldable pub charge_piece : CharPtr → Address → ℤ → M (Unit {0})
unfolding user_named load_user store_user sub_int
charge_piece winner p bid = do
  i ← user_named winner
  u ← load_user i
  balance ← sub_int u.balance bid
  store_user i (record u { balance = balance; auctions_won = insert_at_tail u.auctions_won p })

-- `closeAuction` between `P` and `V`: the creator is paid.
unfoldable pub credit_piece : CharPtr → ℤ → M (Unit {0})
unfolding user_named load_user store_user add_int
credit_piece creator bid = do
  i ← user_named creator
  u ← load_user i
  balance ← add_int u.balance bid
  store_user i (record u { balance = balance })

-- `createAuction` between `P` and `V`: the next id.
unfoldable pub id_piece : M ℤ
unfolding add_int
id_piece = do
  old ← gets (λ s. s.auction_id)
  id ← add_int old (pos 1)
  modify (λ s. record s { auction_id = id })
  pure id

-- `createAuction` behind the semaphore of the ids.
unfoldable pub publish_piece : Address → Auction → ℤ → CharPtr → ℤ → ℤ → ℤ → M (Unit {0})
unfolding claim new_auction store_auction reply_with
publish_piece p block client_fd item_name duration price id = do
  users ← gets (λ s. s.users)
  let (users', creator) = claim client_fd p block.creator users
  modify (λ s. record s { users = users' })
  store_auction p (new_auction block id item_name duration price creator)
  modify (λ s. record s { auctions = insert_at_tail s.auctions p })
  reply_with client_fd MsgType.ancreate (print_int id)

-- `run_tick`: the first node of the list, and the node behind the one of an auction. A node that has
-- left the list is freed, and its `next` is wild.
abbrev pub first_of : List Address → Option Address
first_of [] = none
first_of (p ∷ ps) = some p

unfoldable pub next_of : Address → List Address → Option (Option Address)
next_of p [] = none
next_of p (q ∷ qs) = if q == p then some (first_of qs) else next_of p qs

unfoldable pub next_piece : Address → M (Option Address)
unfolding next_of
next_piece p = do auctions ← gets (λ s. s.auctions); deref (next_of p auctions)
