-- ===== src/Auctions/Create.antt =====
-- `createAuction` of src/helpers.c.
pub mod Created
use zbid.Base.{Bool, not, ◌||◌, none, some, List, [], ◌∷◌, ℤ, pos, ltb_ℤ, eq_ℤ, if◌then◌else◌}
use zbid.LinkedList.Contents.{insert_at_tail}
use zbid.Server.{CharPtr, Address, User, Auction}
use zbid.Server.Protocol.{MsgType}
use zbid.Server.Print.{print_int}
use zbid.Server.Monad.{
  strcmp, M, pure, ◌>>=◌, ◌>>◌, deref, gets, modify, store_auction, add_int, sem_wait, sem_post,
  auction_id_mutex, reply, reply_with,
}

-- The loop over all users: those with the descriptor own the auction, the last of them created it.
unfoldable pub claim : ℤ → Address → CharPtr → List User → List User × CharPtr
claim client_fd p creator [] = ([], creator)
claim client_fd p creator (u ∷ us) =
    let mine : Bool = eq_ℤ u.fd client_fd in
    let (us', creator') = claim client_fd p (if mine then u.username else creator) us in
    (
      (if mine then record u { auctions_owned = insert_at_tail u.auctions_owned p } else u) ∷ us',
      creator',
    )

-- `auctionID = auctionID + 1` under its semaphore.
unfoldable pub next_id : M ℤ
unfolding add_int sem_wait sem_post
next_id = do
  sem_wait auction_id_mutex
  old ← gets (λ s. s.auction_id)
  id ← add_int old (pos 1)
  modify (λ s. record s { auction_id = id })
  sem_post auction_id_mutex
  pure id

-- The fields that are assigned in the block that `malloc` returned; `numberOfWatchers` is not.
unfoldable pub new_auction : Auction → ℤ → CharPtr → ℤ → ℤ → CharPtr → Auction
new_auction block id item_name duration price creator = record block {
  id = id;
  name = item_name;
  duration = duration;
  bin_price = price;
  bin_flag = not (eq_ℤ price (pos 0));
  bid = pos 0;
  current_winner = none;
  creator = creator;
  watchers = [];
}

abbrev pub empty_text : CharPtr
empty_text = some (record { address = 0; text = [] })

-- `createAuction`, where `malloc` returned `p` and the block there held `block`.
unfoldable pub create_auction : Address → Auction → ℤ → CharPtr → ℤ → ℤ → M (Unit {0})
unfolding claim next_id new_auction store_auction reply reply_with
create_auction p block client_fd item_name duration price = do
  unnamed ← deref (strcmp item_name empty_text)
  if unnamed || (ltb_ℤ duration (pos 1) || ltb_ℤ price (pos 0))
      then reply client_fd MsgType.einvalidarg
      else do
        id ← next_id
        users ← gets (λ s. s.users)
        let (users', creator) = claim client_fd p block.creator users
        modify (λ s. record s { users = users' })
        store_auction p (new_auction block id item_name duration price creator)
        modify (λ s. record s { auctions = insert_at_tail s.auctions p })
        reply_with client_fd MsgType.ancreate (print_int id)
