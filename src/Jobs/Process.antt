-- ===== src/Jobs/Process.antt =====
-- `processJob` of src/finalsample.c: a message is copied, read and handed to its handler.
use zbid.Base.{
  ◌≡◌, refl, arith, ℕ, ◌+◌, ◌==◌, Option, some, [], ◌∷◌, length, leb, ltb, ℤ, Text, if◌then◌else◌,
}
use zbid.Server.{Address, Auction}
use zbid.Server.Protocol.{MsgType, code}
use zbid.Server.Monad.{
  M, pure, halt, overrun, deref, ◌>>=◌, ◌>>◌, Semaphore, users_mutex, auctions_mutex, sem_wait,
  sem_post,
}
use zbid.Users.Session.{logout}
use zbid.Auctions.Create.{create_auction}
use zbid.Auctions.Watch.{watch_auction, leave_auction}
use zbid.Auctions.Bid.{bid_auction}
use zbid.Reports.Listing.{list_auctions, print_users}
use zbid.Reports.Account.{user_balance, users_wins, users_sales}
use zbid.Jobs.Text.{strtok, atoi}

-- `job_t`, with the text at `jobBuffer`.
pub record Job : Type 0 where
  pub job_buffer : Text
  pub job_msg_type : ℕ
  pub job_msg_length : ℤ
  pub clientfd : ℤ

-- What a job meets: where `calloc` puts the copy of the message and how many bytes it gives for a
-- length (`none` is NULL), where `malloc` puts a new auction and what lies there, and what the
-- buffer of `printUsers` holds on the stack.
pub record Blocks : Type 0 where
  pub message : Address
  pub usable : ℤ → Option ℕ
  pub auction : Address
  pub auction_block : Auction
  pub stack : Text

-- `P(m); ...; V(m);`
unfoldable pub locked : Semaphore → M (Unit {0}) → M (Unit {0})
unfolding sem_wait sem_post
locked m h = do sem_wait m; h; sem_post m

-- `calloc` and `strcpy`.
unfoldable pub copy_message : Blocks → Job → M Text
copy_message b job = do
  room ← deref (b.usable job.job_msg_length)
  let text = if ltb 0 (length job.job_buffer) then job.job_buffer else []
  if leb (length text + 1) room then pure text else halt overrun

-- The two branches of the copy are one.
pub whole : (text : Text) → (if ltb 0 (length text) then text else []) ≡ text
whole [] = refl
whole (c ∷ cs) = ground arith

unfoldable pub create_job : Blocks → ℤ → Text → M (Unit {0})
create_job b client_fd text = do
  let (item_name, p, rest) = strtok b.message text
  let (duration_str, q, rest) = strtok p rest
  duration ← atoi duration_str
  let (price_str, _, _) = strtok q rest
  price ← atoi price_str
  locked auctions_mutex
      (create_auction b.auction b.auction_block client_fd item_name duration price)

unfoldable pub watch_job : Blocks → ℤ → Text → M (Unit {0})
watch_job b client_fd text = do
  auction_id ← atoi (some (record { address = b.message; text = text }))
  locked auctions_mutex (watch_auction client_fd auction_id)

unfoldable pub leave_job : Blocks → ℤ → Text → M (Unit {0})
leave_job b client_fd text = do
  auction_id ← atoi (some (record { address = b.message; text = text }))
  locked auctions_mutex (leave_auction client_fd auction_id)

unfoldable pub bid_job : Blocks → ℤ → Text → M (Unit {0})
bid_job b client_fd text = do
  let (auction_id_str, p, rest) = strtok b.message text
  auction_id ← atoi auction_id_str
  let (bid_str, _, _) = strtok p rest
  bid ← atoi bid_str
  locked auctions_mutex (bid_auction client_fd auction_id bid)

-- The `switch`; types without a case of their own do nothing.
unfoldable pub switch : Blocks → ℤ → ℕ → Text → M (Unit {0})
switch b client_fd type text =
    if type == code MsgType.logout
    then logout client_fd
    else if type == code MsgType.ancreate
    then create_job b client_fd text
    else if type == code MsgType.anlist
    then locked auctions_mutex (list_auctions client_fd)
    else if type == code MsgType.anwatch
    then watch_job b client_fd text
    else if type == code MsgType.anleave
    then leave_job b client_fd text
    else if type == code MsgType.anbid
    then bid_job b client_fd text
    else if type == code MsgType.usrlist
    then locked users_mutex (print_users b.stack client_fd)
    else if type == code MsgType.usrwins
    then locked users_mutex (users_wins client_fd)
    else if type == code MsgType.usrsales
    then locked users_mutex (users_sales client_fd)
    else if type == code MsgType.usrblnc
    then locked users_mutex (user_balance client_fd)
    else pure tt

-- `processJob`.
unfoldable pub process_job : Blocks → Job → M (Unit {0})
process_job b job = do text ← copy_message b job; switch b job.clientfd job.job_msg_type text
