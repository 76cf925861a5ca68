-- ===== src/System/Threads/Locking/Handlers.antt =====
-- The programs of src/helpers.c take the semaphores in their order.
use zbid.Base.{
  ◌≡◌, refl, Bool, true, false, Option, none, some, List, [], ◌∷◌, ◌&&◌, ◌||◌, ℤ, pos, ltb_ℤ, Text,
  if◌then◌else◌,
}
use zbid.Server.{CharPtr, Address, Auction, Server}
use zbid.Server.Protocol.{MsgType}
use zbid.Server.Print.{print_int, crlf}
use zbid.Server.Monad.{M, Semaphore, strcmp}
use zbid.Auctions.Bid.{same_pointer}
use zbid.Auctions.Create.{empty_text}
use zbid.System.Threads.{Prog, ret, post, do_piece}
use zbid.System.Threads.Programs.{
  under, settle_thread, close_thread, create_thread, place_thread, watcher_thread, found_thread,
  bid_in_thread, bid_thread,
}
use zbid.System.Threads.Quiet.{
  Quiet, returned, deref-Quiet, load_auction-Quiet, store_auction-Quiet, strcat-Quiet, reply-Quiet,
  client_user-Quiet,
}
use zbid.System.Threads.Quiet.Handlers.{
  notify_closed-Quiet, update_auction-Quiet, find_auction-Quiet, remove_auction-Quiet,
  charge_piece-Quiet, credit_piece-Quiet, id_piece-Quiet, publish_piece-Quiet,
}
use zbid.System.Threads.Locking.{no_other, Holding, taking, giving, Follows, Follows-bind}

-- `P` and `V` around a program that gives back what it takes.
module _ {A : Type 0} (x : Semaphore) (p : Prog A) (h g : Holding) (takes : taking x h ≡ some g)
    (gives : giving x g ≡ some h) where
  pub under-Follows : Follows g p g → Follows h (under x p) h
  under-Follows inside =
      (g, takes, Follows-bind p (λ r. post x (ret r)) g g h inside (λ r. (h, gives, refl)))

pub piece-Follows :
    {A : Type 0} (m : M A) (h : Holding) → ((s : Server) → Quiet s (m s)) → Follows h (do_piece m) h
piece-Follows m h quiet = (quiet, λ b. refl)

pub if-Follows :
    {A : Type 0} (c : Bool) (p q : Prog A) (h g : Holding)
    → Follows h p g
    → Follows h q g
    → Follows h (if c then p else q) g
if-Follows true p q h g yes_case no_case = yes_case
if-Follows false p q h g yes_case no_case = no_case

-- The handlers that run under the semaphore of the auctions.
abbrev pub listed : Holding
listed = (true, no_other)

settle-Follows :
    (a : Auction) (p : Address) (buf : Text) → Follows listed (settle_thread a p buf) listed
settle-Follows a p buf = go a.current_winner
  where
    go :
        (c : CharPtr)
        → Follows listed (settle_thread (record a { current_winner = c }) p buf) listed
    go none = (strcat-Quiet buf crlf, λ b. (strcat-Quiet b crlf, λ b. refl))
    go (some w) = (
      strcat-Quiet buf w.text,
      λ b. (
        strcat-Quiet b crlf,
        λ b. (
          strcat-Quiet b (print_int a.bid),
          λ b. (_, refl, (charge_piece-Quiet (some w) p a.bid, λ _. (_, refl, refl))),
        ),
      ),
    )

pub close-Follows : (p : Address) → Follows listed (close_thread p) listed
unfolding close_thread
close-Follows p = (
  load_auction-Quiet p,
  λ a. (
    strcat-Quiet (print_int a.id) crlf,
    λ buf.
        Follows-bind (settle_thread a p buf) _ listed listed listed (settle-Follows a p buf) λ buf.
          (
            _,
            refl,
            (
              credit_piece-Quiet a.creator a.bid,
              λ _. (_, refl, (notify_closed-Quiet buf a.watchers, λ _. refl)),
            ),
          ),
  ),
)

pub create-Follows :
    (p : Address) (block : Auction) (fd : ℤ) (n : CharPtr) (duration price : ℤ)
    → Follows listed (create_thread p block fd n duration price) listed
unfolding create_thread
create-Follows p block fd n duration price = (
  deref-Quiet (strcmp n empty_text),
  λ unnamed.
      if-Follows (unnamed || (ltb_ℤ duration (pos 1) || ltb_ℤ price (pos 0))) _ _ listed listed
        (piece-Follows _ listed (reply-Quiet fd MsgType.einvalidarg))
        (
          _,
          refl,
          (
            id_piece-Quiet,
            λ id. (_, refl, (publish_piece-Quiet p block fd n duration price id, λ _. refl)),
          ),
        ),
)

place-Follows :
    (fd : ℤ) (c : CharPtr) (p : Address) (bid : ℤ) → Follows listed (place_thread fd c p bid) listed
unfolding place_thread
place-Follows fd c p bid = (
  load_auction-Quiet p,
  λ a.
      let led = record a { bid = bid; current_winner = c } in
      if-Follows (a.bin_flag && ltb_ℤ a.bin_price bid) _ _ listed listed
        (
          store_auction-Quiet p led,
          λ _.
              Follows-bind (close_thread p) _ listed listed listed (close-Follows p)
                λ _. piece-Follows _ listed (remove_auction-Quiet p),
        )
        (if-Follows (ltb_ℤ a.bid bid) _ _ listed listed
          (
            store_auction-Quiet p led,
            λ _. (
              _,
              refl,
              (update_auction-Quiet p c, λ _. (_, refl, (reply-Quiet fd MsgType.ok, λ _. refl))),
            ),
          )
          (piece-Follows _ listed (reply-Quiet fd MsgType.ebidlow))),
)

watcher-Follows :
    (fd : ℤ) (c : CharPtr) (p : Address) (bid : ℤ) (ws : List CharPtr)
    → Follows listed (watcher_thread fd c p bid ws) listed
unfolding watcher_thread
watcher-Follows fd c p bid [] = piece-Follows _ listed (reply-Quiet fd MsgType.eandenied)
watcher-Follows fd c p bid (w ∷ ws) = (
  deref-Quiet (strcmp w c),
  λ same.
      if-Follows same _ _ listed listed (place-Follows fd c p bid) (watcher-Follows fd c p bid ws),
)

found-Follows :
    (fd : ℤ) (c : CharPtr) (p : Address) (bid : ℤ) → Follows listed (found_thread fd c p bid) listed
unfolding found_thread
found-Follows fd c p bid = (
  load_auction-Quiet p,
  λ a.
      if-Follows (same_pointer a.creator c) _ _ listed listed
        (piece-Follows _ listed (reply-Quiet fd MsgType.eandenied))
        (watcher-Follows fd c p bid a.watchers),
)

bid_in-Follows :
    (fd : ℤ) (c : CharPtr) (id bid : ℤ) (ps : List Address)
    → Follows listed (bid_in_thread fd c id bid ps) listed
unfolding bid_in_thread
bid_in-Follows fd c id bid [] = piece-Follows _ listed (reply-Quiet fd MsgType.eannotfound)
bid_in-Follows fd c id bid (q ∷ qs) = (find_auction-Quiet id (q ∷ qs), go)
  where
    go :
        (r : Option Address)
        → let p : Prog (Unit {0}) = elim r [ none ↦ ret tt | some p ↦ found_thread fd c p bid ] in
          Follows listed p listed
    go none = refl
    go (some p) = found-Follows fd c p bid

pub bid-Follows : (fd id bid : ℤ) → Follows listed (bid_thread fd id bid) listed
unfolding bid_thread
bid-Follows fd id bid = (
  client_user-Quiet fd,
  λ u. (λ s. returned s.auctions s, λ auctions. bid_in-Follows fd u.username id bid auctions),
)
