-- ===== src/System/Threads/Programs.antt =====
-- The handlers of src/helpers.c and their callers in src/finalsample.c as programs of a thread. What
-- run_server and process_client read under `buffer_lock` comes before.
use zbid.Base.{
  zero, suc, Option, none, some, List, [], ◌∷◌, ◌&&◌, ◌||◌, ◌==◌, ℕ, ℤ, pos, eq_ℤ, ltb_ℤ, Text,
  if◌then◌else◌,
}
use zbid.Server.{User, CharPtr, Address, Auction}
use zbid.Server.Protocol.{MsgType, code}
use zbid.Server.Print.{print_int, crlf}
use zbid.Server.Monad.{
  deref, gets, modify, load_auction, store_auction, add_int, strcat, strcmp, reply, Semaphore,
  users_mutex, auctions_mutex, auction_id_mutex,
}
use zbid.Users.Find.{client_user}
use zbid.Users.Session.{login, logout}
use zbid.Auctions.Find.{find_auction, remove_auction}
use zbid.Auctions.Close.{notify_closed}
use zbid.Auctions.Create.{empty_text}
use zbid.Auctions.Watch.{watch_auction, leave_auction}
use zbid.Auctions.Bid.{same_pointer, update_auction}
use zbid.Reports.Listing.{list_auctions, print_users}
use zbid.Reports.Account.{user_balance, users_wins, users_sales}
use zbid.Jobs.Text.{strtok, atoi}
use zbid.Jobs.Process.{Blocks, Job, copy_message}
use zbid.Ticker.{count_down}
use zbid.System.Threads.{Prog, ret, do_piece, sem_P, sem_V, ◌>>=◌, ◌>>◌}
use zbid.System.Threads.Pieces.{
  charge_piece, credit_piece, id_piece, publish_piece, first_of, next_piece,
}

-- `P(m); ...; V(m);`
abbrev pub under : {A : Type 0} → Semaphore → Prog A → Prog A
under x p = do sem_P x; r ← p; sem_V x; ret r

-- `closeAuction`.
abbrev pub settle_thread : Auction → Address → Text → Prog Text
settle_thread a p buf = elim a.current_winner [
  | none ↦ (do buf ← do_piece (strcat buf crlf); do_piece (strcat buf crlf))
  | some w ↦ (do
    buf ← do_piece (strcat buf w.text)
    buf ← do_piece (strcat buf crlf)
    buf ← do_piece (strcat buf (print_int a.bid))
    under users_mutex (do_piece (charge_piece (some w) p a.bid))
    ret buf)
]

unfoldable pub close_thread : Address → Prog (Unit {0})
close_thread p = do
  a ← do_piece (load_auction p)
  buf ← do_piece (strcat (print_int a.id) crlf)
  buf ← settle_thread a p buf
  under users_mutex (do_piece (credit_piece a.creator a.bid))
  do_piece (notify_closed buf a.watchers)

-- `createAuction`.
unfoldable pub create_thread : Address → Auction → ℤ → CharPtr → ℤ → ℤ → Prog (Unit {0})
create_thread p block client_fd item_name duration price = do
  unnamed ← do_piece (deref (strcmp item_name empty_text))
  if unnamed || (ltb_ℤ duration (pos 1) || ltb_ℤ price (pos 0))
      then do_piece (reply client_fd MsgType.einvalidarg)
      else do
        id ← under auction_id_mutex (do_piece id_piece)
        do_piece (publish_piece p block client_fd item_name duration price id)

-- `bidAuction`.
unfoldable pub place_thread : ℤ → CharPtr → Address → ℤ → Prog (Unit {0})
unfolding close_thread
place_thread client_fd username p bid = do
  a ← do_piece (load_auction p)
  let led = record a { bid = bid; current_winner = username }
  if a.bin_flag && ltb_ℤ a.bin_price bid
      then (do do_piece (store_auction p led); close_thread p; do_piece (remove_auction p))
      else if ltb_ℤ a.bid bid
      then (do
        do_piece (store_auction p led)
        under auction_id_mutex (do_piece (update_auction p username))
        do_piece (reply client_fd MsgType.ok))
      else do_piece (reply client_fd MsgType.ebidlow)

unfoldable pub watcher_thread : ℤ → CharPtr → Address → ℤ → List CharPtr → Prog (Unit {0})
unfolding place_thread
watcher_thread client_fd username p bid [] = do_piece (reply client_fd MsgType.eandenied)
watcher_thread client_fd username p bid (w ∷ ws) = do
  same ← do_piece (deref (strcmp w username))
  if same then place_thread client_fd username p bid else watcher_thread client_fd username p bid ws

unfoldable pub found_thread : ℤ → CharPtr → Address → ℤ → Prog (Unit {0})
unfolding watcher_thread
found_thread client_fd username p bid = do
  a ← do_piece (load_auction p)
  if same_pointer a.creator username
      then do_piece (reply client_fd MsgType.eandenied)
      else watcher_thread client_fd username p bid a.watchers

unfoldable pub bid_in_thread : ℤ → CharPtr → ℤ → ℤ → List Address → Prog (Unit {0})
unfolding found_thread
bid_in_thread client_fd username auction_id bid [] = do_piece (reply client_fd MsgType.eannotfound)
bid_in_thread client_fd username auction_id bid (q ∷ qs) = do
  found ← do_piece (find_auction auction_id (q ∷ qs))
  elim found [ none ↦ ret tt | some p ↦ found_thread client_fd username p bid ]

unfoldable pub bid_thread : ℤ → ℤ → ℤ → Prog (Unit {0})
unfolding bid_in_thread
bid_thread client_fd auction_id bid = do
  u ← do_piece (client_user client_fd)
  auctions ← do_piece (gets (λ s. s.auctions))
  bid_in_thread client_fd u.username auction_id bid auctions

-- `processJob`.
abbrev pub create_request : Blocks → ℤ → Text → Prog (Unit {0})
create_request b client_fd text = do
  let (item_name, p, rest) = strtok b.message text
  let (duration_str, q, rest) = strtok p rest
  duration ← do_piece (atoi duration_str)
  let (price_str, _, _) = strtok q rest
  price ← do_piece (atoi price_str)
  under auctions_mutex (create_thread b.auction b.auction_block client_fd item_name duration price)

abbrev pub watch_request : Blocks → ℤ → Text → Prog (Unit {0})
watch_request b client_fd text = do
  auction_id ← do_piece (atoi (some (record { address = b.message; text = text })))
  under auctions_mutex (do_piece (watch_auction client_fd auction_id))

abbrev pub leave_request : Blocks → ℤ → Text → Prog (Unit {0})
leave_request b client_fd text = do
  auction_id ← do_piece (atoi (some (record { address = b.message; text = text })))
  under auctions_mutex (do_piece (leave_auction client_fd auction_id))

abbrev pub bid_request : Blocks → ℤ → Text → Prog (Unit {0})
bid_request b client_fd text = do
  let (auction_id_str, p, rest) = strtok b.message text
  auction_id ← do_piece (atoi auction_id_str)
  let (bid_str, _, _) = strtok p rest
  bid ← do_piece (atoi bid_str)
  under auctions_mutex (bid_thread client_fd auction_id bid)

unfoldable pub switch_thread : Blocks → ℤ → ℕ → Text → Prog (Unit {0})
unfolding create_thread bid_thread
switch_thread b client_fd type text =
    if type == code MsgType.logout
    then do_piece (logout client_fd)
    else if type == code MsgType.ancreate
    then create_request b client_fd text
    else if type == code MsgType.anlist
    then under auctions_mutex (do_piece (list_auctions client_fd))
    else if type == code MsgType.anwatch
    then watch_request b client_fd text
    else if type == code MsgType.anleave
    then leave_request b client_fd text
    else if type == code MsgType.anbid
    then bid_request b client_fd text
    else if type == code MsgType.usrlist
    then under users_mutex (do_piece (print_users b.stack client_fd))
    else if type == code MsgType.usrwins
    then under users_mutex (do_piece (users_wins client_fd))
    else if type == code MsgType.usrsales
    then under users_mutex (do_piece (users_sales client_fd))
    else if type == code MsgType.usrblnc
    then under users_mutex (do_piece (user_balance client_fd))
    else ret tt

unfoldable pub job_thread : Blocks → Job → Prog (Unit {0})
unfolding switch_thread
job_thread b j = do
  text ← do_piece (copy_message b j)
  switch_thread b j.clientfd j.job_msg_type text

-- `run_tick`: the walk from node to node over the list as it is at each step, over so many nodes at
-- most. A run of so many steps does not tell a walk with as many nodes from one without a bound.
unfoldable pub walk_thread : ℕ → Option Address → Prog (Unit {0})
unfolding close_thread next_piece
walk_thread nodes none = ret tt
walk_thread zero (some p) = ret tt
walk_thread (suc nodes) (some p) = do
  left ← do_piece (count_down p)
  if eq_ℤ left (pos 0)
      then under auctions_mutex (do close_thread p; do_piece (remove_auction p))
      else do next ← do_piece (next_piece p); walk_thread nodes next

unfoldable pub tick_thread : ℕ → Prog (Unit {0})
unfolding walk_thread
tick_thread nodes = do
  old ← do_piece (gets (λ s. s.tick))
  now ← do_piece (add_int old (pos 1))
  do_piece (modify (λ s. record s { tick = now }))
  auctions ← do_piece (gets (λ s. s.auctions))
  walk_thread nodes (first_of auctions)

-- `run_server`, for the LOGIN of a connection, from `P` to `V`: the message has been read.
unfoldable pub login_thread : ℤ → User → CharPtr → CharPtr → Prog (Unit {0})
login_thread client_fd block username password = do
  under users_mutex (do_piece (login block client_fd username password))
  ret tt

-- What a thread is called for: a LOGIN that has been read, a job, a tick over so many nodes at most.
pub data Call : Type 0 where
  log_in : ℤ → User → CharPtr → CharPtr → Call
  work : Blocks → Job → Call
  count : ℕ → Call

unfoldable pub thread_of : Call → Prog (Unit {0})
unfolding login_thread job_thread tick_thread
thread_of (log_in client_fd block username password) =
    login_thread client_fd block username password
thread_of (work b j) = job_thread b j
thread_of (count nodes) = tick_thread nodes
