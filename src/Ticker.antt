-- ===== src/Ticker.antt =====
-- One tick of `run_tick` in src/finalsample.c: the body of its loop, in both modes.
pub mod Walk
pub mod Wait
use zbid.Base.{List, [], ◌∷◌, ℤ, pos, eq_ℤ, if◌then◌else◌}
use zbid.Server.{Address}
use zbid.Server.Monad.{
  M, pure, ◌>>=◌, ◌>>◌, gets, modify, load_auction, store_auction, add_int, sub_int, sem_wait,
  sem_post, auctions_mutex,
}
use zbid.Auctions.Find.{remove_auction}
use zbid.Auctions.Close.{close_auction}

-- The closing of an auction whose time is over.
unfoldable pub expire : Address → M (Unit {0})
unfolding close_auction remove_auction sem_wait sem_post
expire p = do sem_wait auctions_mutex; close_auction p; remove_auction p; sem_post auctions_mutex

-- `currentAuction->duration = currentAuction->duration - 1`, and the new value.
unfoldable pub count_down : Address → M ℤ
unfolding load_auction store_auction sub_int
count_down p = do
  a ← load_auction p
  left ← sub_int a.duration (pos 1)
  store_auction p (record a { duration = left })
  pure left

-- The walk over `auctionsList`, which ends after the first auction that it closes.
unfoldable pub tick_auctions : List Address → M (Unit {0})
unfolding count_down expire
tick_auctions [] = pure tt
tick_auctions (p ∷ ps) = do
  left ← count_down p
  if eq_ℤ left (pos 0) then expire p else tick_auctions ps

-- `tick++`, then the walk.
unfoldable pub run_tick : M (Unit {0})
unfolding tick_auctions add_int
run_tick = do
  old ← gets (λ s. s.tick)
  now ← add_int old (pos 1)
  modify (λ s. record s { tick = now })
  auctions ← gets (λ s. s.auctions)
  tick_auctions auctions
