-- ===== src/System/Threads/Alone.antt =====
-- A handler of src/helpers.c as a program of a thread, alone, does what the handler does.
pub mod Jobs
use zbid.Base.{
  ◌≡◌, refl, ap, ◌∙◌, Bool, true, false, Option, none, some, List, [], ◌∷◌, ◌||◌, ◌&&◌, ltb_ℤ, pos,
  ℤ, Text, if◌then◌else◌,
}
use zbid.Server.{CharPtr, Address, Auction, Server}
use zbid.Server.Print.{print_int, crlf}
use zbid.Server.Monad.{
  Run, M, done, stop, and_then, strcat, load_auction, load_user, sub_int, add_int, deref, strcmp,
  sem_wait, sem_post, Semaphore, users_mutex, auctions_mutex, auction_id_mutex,
}
use zbid.Base.{Option-cases, Bool-cases, inl, inr}
use zbid.Auctions.Create.{create_auction, next_id}
use zbid.Auctions.Close.{
  user_named, charge_winner, pay_creator, settle_winner, notify_closed, close_auction,
}
use zbid.Auctions.Create.{empty_text}
use zbid.System.Threads
use zbid.System.Threads.{Prog, ret, piece, wait, post, run, do_piece}
use zbid.System.Threads.Pieces.{charge_piece, credit_piece, id_piece, publish_piece}
use zbid.System.Threads.Programs.{
  under, settle_thread, close_thread, create_thread, place_thread, watcher_thread, found_thread,
  bid_in_thread, bid_thread,
}
use zbid.Server.Monad.{store_auction, reply}
use zbid.Server.Protocol.{MsgType}
use zbid.Users.Find.{client_user}
use zbid.Auctions.Find.{find_auction, remove_auction}
use zbid.Auctions.Bid.{
  same_pointer, update_auction, place_bid, bid_as_watcher, bid_found, bid_in, bid_auction,
}

-- Runs that go on alike, and what follows a run that goes on.
pub same_next :
    {A B : Type 0} (r : Run A) {f g : A → M B}
    → ((a : A) (s : Server) → f a s ≡ g a s)
    → and_then r f ≡ and_then r g
same_next (done a s) same = same a s
same_next (stop e) same = refl

pub nest :
    {A B C : Type 0} (r : Run A) (k : A → M B) (l : B → M C) {g : A → M C}
    → ((a : A) (s : Server) → and_then (k a s) l ≡ g a s)
    → and_then (and_then r k) l ≡ and_then r g
nest (done a s) k l same = same a s
nest (stop e) k l same = refl

pub and_then-done : {A : Type 0} (r : Run A) → and_then r done ≡ r
and_then-done (done a s) = refl
and_then-done (stop e) = refl

pub nest_sym :
    {A B C : Type 0} (r : Run A) (k : A → M B) (l : B → M C) {g : A → M C}
    → ((a : A) (s : Server) → g a s ≡ and_then (k a s) l)
    → and_then r g ≡ and_then (and_then r k) l
nest_sym (done a s) k l same = same a s
nest_sym (stop e) k l same = refl

pub run-bind :
    {A B : Type 0} (p : Prog A) (f : A → Prog B) (s : Server)
    → run (Threads.◌>>=◌ p f) s ≡ and_then (run p s) (λ a. run (f a))
unfolding run
run-bind (ret a) f s = refl
run-bind (piece m k) f s = nest_sym (m s) _ _ λ b t. run-bind (k b) f t
run-bind (wait x p) f s = nest_sym (sem_wait x s) _ _ λ b t. run-bind p f t
run-bind (post x p) f s = nest_sym (sem_post x s) _ _ λ b t. run-bind p f t

charge-alone :
    (w : CharPtr) (p : Address) (bid : ℤ) (s : Server)
    → run (under users_mutex (do_piece (charge_piece w p bid))) s ≡ charge_winner w p bid s
unfolding run charge_piece charge_winner
charge-alone w p bid s = same_next (sem_wait users_mutex s) λ _ t.
    nest (user_named w t) _ _
      λ i t. nest (load_user i t) _ _ λ u t. nest (sub_int u.balance bid t) _ _ λ b t. refl

pay-alone :
    (c : CharPtr) (bid : ℤ) (s : Server)
    → run (under users_mutex (do_piece (credit_piece c bid))) s ≡ pay_creator c bid s
unfolding run credit_piece pay_creator
pay-alone c bid s = same_next (sem_wait users_mutex s) λ _ t.
    nest (user_named c t) _ _
      λ i t. nest (load_user i t) _ _ λ u t. nest (add_int u.balance bid t) _ _ λ b t. refl

-- A program that does what a run does, and what follows.
pub follow :
    {A B : Type 0} (p : Prog A) (f : A → Prog B) {g : A → M B} (s : Server) {r : Run A}
    → run p s ≡ r
    → ((a : A) (t : Server) → run (f a) t ≡ g a t)
    → run (Threads.◌>>=◌ p f) s ≡ and_then r g
follow p f s {r} e same =
    run-bind p f s ∙ ap (λ q. and_then q (λ a. run (f a))) e ∙ same_next r same

pub if-alone :
    {A : Type 0} (c : Bool) (p q : Prog A) (m n : M A) (s : Server)
    → run p s ≡ m s
    → run q s ≡ n s
    → run (if c then p else q) s ≡ (if c then m else n) s
if-alone true p q m n s yes_case no_case = yes_case
if-alone false p q m n s yes_case no_case = no_case

settle-alone :
    (a : Auction) (p : Address) (buf : Text) (s : Server)
    → run (settle_thread a p buf) s ≡ settle_winner a p buf s
unfolding run settle_winner
settle-alone a p buf s = elim (Option-cases a.current_winner) [
  | inl nobody ↦
      rw (nobody, settle_winner)
        (same_next (strcat buf crlf s) λ b t. and_then-done (strcat b crlf t))
  | inr (w, somebody) ↦
      rw (somebody, settle_winner)
        (same_next (strcat buf w.text s) λ b t. same_next (strcat b crlf t) λ b t.
          same_next (strcat b (print_int a.bid) t) λ b t.
            follow (under users_mutex (do_piece (charge_piece (some w) p a.bid))) (λ _. ret b) t
              (charge-alone (some w) p a.bid t) λ _ t. refl)
]

pub close-alone : (p : Address) (s : Server) → run (close_thread p) s ≡ close_auction p s
unfolding run close_thread close_auction
close-alone p s = same_next (load_auction p s) λ a t.
    same_next (strcat (print_int a.id) crlf t) λ buf t.
      follow (settle_thread a p buf) _ t (settle-alone a p buf t) λ buf t.
        follow (under users_mutex (do_piece (credit_piece a.creator a.bid)))
          (λ _. do_piece (notify_closed buf a.watchers)) t (pay-alone a.creator a.bid t)
          λ _ t. and_then-done (notify_closed buf a.watchers t)

id-alone : (s : Server) → run (under auction_id_mutex (do_piece id_piece)) s ≡ next_id s
unfolding run id_piece next_id
id-alone s =
    same_next (sem_wait auction_id_mutex s)
      λ _ t. nest (add_int t.auction_id (pos 1) t) _ _ λ id t. refl

pub create-alone :
    (p : Address) (block : Auction) (client_fd : ℤ) (n : CharPtr) (duration price : ℤ) (s : Server)
    → run (create_thread p block client_fd n duration price) s
      ≡ create_auction p block client_fd n duration price s
unfolding run create_thread create_auction publish_piece
create-alone p block client_fd n duration price s =
    same_next (deref (strcmp n empty_text) s) λ unnamed t.
      if-alone (unnamed || (ltb_ℤ duration (pos 1) || ltb_ℤ price (pos 0))) _ _ _ _ t
        (and_then-done (reply client_fd MsgType.einvalidarg t))
        (follow (under auction_id_mutex (do_piece id_piece))
          (λ id. do_piece (publish_piece p block client_fd n duration price id)) t (id-alone t)
          λ id t. and_then-done (publish_piece p block client_fd n duration price id t))

place-alone :
    (client_fd : ℤ) (c : CharPtr) (p : Address) (bid : ℤ) (s : Server)
    → run (place_thread client_fd c p bid) s ≡ place_bid client_fd c p bid s
unfolding run place_thread place_bid
place-alone client_fd c p bid s = same_next (load_auction p s) λ a t.
    let led = record a { bid = bid; current_winner = c } in
    if-alone (a.bin_flag && ltb_ℤ a.bin_price bid) _ _ _ _ t
      (same_next (store_auction p led t) λ _ t.
        follow (close_thread p) (λ _. do_piece (remove_auction p)) t (close-alone p t)
          λ _ t. and_then-done (remove_auction p t))
      (if-alone (ltb_ℤ a.bid bid) _ _ _ _ t
        (same_next (store_auction p led t) λ _ t. same_next (sem_wait auction_id_mutex t) λ _ t.
          same_next (update_auction p c t) λ _ t.
            same_next (sem_post auction_id_mutex t)
              λ _ t. and_then-done (reply client_fd MsgType.ok t))
        (and_then-done (reply client_fd MsgType.ebidlow t)))

watcher-alone :
    (client_fd : ℤ) (c : CharPtr) (p : Address) (bid : ℤ) (ws : List CharPtr) (s : Server)
    → run (watcher_thread client_fd c p bid ws) s ≡ bid_as_watcher client_fd c p bid ws s
unfolding run watcher_thread bid_as_watcher
watcher-alone client_fd c p bid [] s = and_then-done (reply client_fd MsgType.eandenied s)
watcher-alone client_fd c p bid (w ∷ ws) s = same_next (deref (strcmp w c) s) λ same t.
    if-alone same _ _ _ _ t (place-alone client_fd c p bid t) (watcher-alone client_fd c p bid ws t)

found-alone :
    (client_fd : ℤ) (c : CharPtr) (p : Address) (bid : ℤ) (s : Server)
    → run (found_thread client_fd c p bid) s ≡ bid_found client_fd c p bid s
unfolding run found_thread bid_found
found-alone client_fd c p bid s = same_next (load_auction p s) λ a t.
    if-alone (same_pointer a.creator c) _ _ _ _ t
      (and_then-done (reply client_fd MsgType.eandenied t))
      (watcher-alone client_fd c p bid a.watchers t)

bid_in-alone :
    (client_fd : ℤ) (c : CharPtr) (id bid : ℤ) (ps : List Address) (s : Server)
    → run (bid_in_thread client_fd c id bid ps) s ≡ bid_in client_fd c id bid ps s
unfolding run bid_in_thread bid_in
bid_in-alone client_fd c id bid [] s = and_then-done (reply client_fd MsgType.eannotfound s)
bid_in-alone client_fd c id bid (q ∷ qs) s = same_next (find_auction id (q ∷ qs) s) go
  where
    go :
        (r : Option Address) (t : Server)
        → let p : Prog (Unit {0}) = elim r [
          | none ↦ ret tt
          | some p ↦ found_thread client_fd c p bid
        ] in
          let m : M (Unit {0}) = elim r [ none ↦ done tt | some p ↦ bid_found client_fd c p bid ] in
          run p t ≡ m t
    go none t = refl
    go (some p) t = found-alone client_fd c p bid t

pub bid-alone :
    (client_fd id bid : ℤ) (s : Server)
    → run (bid_thread client_fd id bid) s ≡ bid_auction client_fd id bid s
unfolding run bid_thread bid_auction
bid-alone client_fd id bid s =
    same_next (client_user client_fd s) λ u t. bid_in-alone client_fd u.username id bid t.auctions t
