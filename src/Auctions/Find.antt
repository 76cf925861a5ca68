-- ===== src/Auctions/Find.antt =====
-- The searches through `auctionsList`, and the removal of an auction from it.
use zbid.Base.{ℕ, Option, none, some, List, [], ◌∷◌, ℤ, eq_ℤ, if◌then◌else◌}
use zbid.LinkedList.Contents.{remove_by_index}
use zbid.Server.{Address}
use zbid.Server.Monad.{M, pure, ◌>>=◌, deref, gets, modify, load_auction}
use zbid.Users.Find.{shift, to_index}

-- The loop by which a handler looks for the auction with an id; `none` is the end of the list.
unfoldable pub find_auction : ℤ → List Address → M (Option Address)
unfolding load_auction
find_auction id [] = pure none
find_auction id (p ∷ ps) = do
  a ← load_auction p
  if eq_ℤ a.id id then pure (some p) else find_auction id ps

-- `findAuctionIndex`, as a position.
unfoldable pub find_auction_position : ℤ → List Address → M (Option ℕ)
unfolding load_auction
find_auction_position id [] = pure none
find_auction_position id (p ∷ ps) = do
  a ← load_auction p
  if eq_ℤ id a.id then pure (some 0) else do rest ← find_auction_position id ps; pure (shift rest)

unfoldable pub find_auction_index : Address → M ℤ
unfolding load_auction find_auction_position
find_auction_index p = do
  auction ← load_auction p
  auctions ← gets (λ s. s.auctions)
  found ← find_auction_position auction.id auctions
  pure (to_index found)

-- `int index = findAuctionIndex(auction); removeByIndex(auctionsList, index);`
unfoldable pub remove_auction : Address → M (Unit {0})
unfolding find_auction_index
remove_auction p = do
  index ← find_auction_index p
  auctions ← gets (λ s. s.auctions)
  rest ← deref (remove_by_index auctions index)
  modify (λ s. record s { auctions = rest })
