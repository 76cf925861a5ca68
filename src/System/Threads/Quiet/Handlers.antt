-- ===== src/System/Threads/Quiet/Handlers.antt =====
-- The pieces of src/helpers.c and src/finalsample.c that change the state or answer a client leave
-- every semaphore as it is.
use zbid.Base.{refl, Option, none, some, List, [], ◌∷◌, ℕ, ℤ, pos, negsuc, eq_ℤ, Text}
use zbid.LinkedList.Contents.{remove_by_index}
use zbid.Server.{CharPtr, Address, Auction, Server}
use zbid.Server.Protocol.{MsgType}
use zbid.Server.Print.{print_int, crlf}
use zbid.Server.Monad.{M, done, and_then, load_user, store_auction, reply_with, wr_msg}
use zbid.Users.Find.{
  find_user_struct, find_user_position, find_user_index, find_client_fd, to_index,
}
use zbid.Auctions.Find.{find_auction, find_auction_position, find_auction_index, remove_auction}
use zbid.Auctions.Close.{user_named, notify_closed}
use zbid.Auctions.Watch.{watch_reply, watch_found, watch_auction, leave_found, leave_auction}
use zbid.Auctions.Bid.{notify_update, update_auction}
use zbid.System.Threads.Pieces.{charge_piece, credit_piece, id_piece, publish_piece}
use zbid.System.Threads.Quiet
use zbid.System.Threads.Quiet.{
  Quiet, back, ended, branch, returned, deref-Quiet, load_auction-Quiet, load_user-Quiet,
  store_auction-Quiet, store_user-Quiet, add_int-Quiet, sub_int-Quiet, strcat-Quiet, wr_msg-Quiet,
  reply-Quiet, reply_with-Quiet, client_user-Quiet,
}

user_named-Quiet : (c : CharPtr) (s : Server) → Quiet s (user_named c s)
unfolding user_named
user_named-Quiet c s =
    Quiet.bind (deref-Quiet (find_user_struct c s.users) s) λ r t. deref-Quiet r t

find_client_fd-Quiet : (c : CharPtr) (s : Server) → Quiet s (find_client_fd c s)
unfolding find_client_fd
find_client_fd-Quiet c s = Quiet.bind (deref-Quiet (find_user_struct c s.users) s) go
  where
    go :
        (r : Option ℕ) (t : Server)
        → let m : M ℤ = elim r [
          | none ↦ done (negsuc 0)
          | some i ↦ (λ q. and_then (load_user i q) (λ u. done u.fd))
        ] in
          Quiet t (m t)
    go none t = returned (negsuc 0) t
    go (some i) t = Quiet.bind (load_user-Quiet i t) λ u q. returned u.fd q

pub notify_closed-Quiet :
    (buf : Text) (ws : List CharPtr) (s : Server) → Quiet s (notify_closed buf ws s)
unfolding notify_closed
notify_closed-Quiet buf [] s = returned tt s
notify_closed-Quiet buf (w ∷ ws) s = Quiet.bind (find_client_fd-Quiet w s) λ fd t.
    Quiet.bind (wr_msg-Quiet fd MsgType.anclosed _ buf t) λ _ q. notify_closed-Quiet buf ws q

notify_update-Quiet :
    (buf : Text) (ws : List CharPtr) (s : Server) → Quiet s (notify_update buf ws s)
unfolding notify_update
notify_update-Quiet buf [] s = returned tt s
notify_update-Quiet buf (w ∷ ws) s = Quiet.bind (find_client_fd-Quiet w s) λ fd t.
    Quiet.bind
      (branch (eq_ℤ fd (negsuc 0)) _ _ (returned tt t) (wr_msg-Quiet fd MsgType.anupdate _ buf t))
      λ _ q. notify_update-Quiet buf ws q

pub update_auction-Quiet : (p : Address) (c : CharPtr) (s : Server) → Quiet s (update_auction p c s)
unfolding update_auction
update_auction-Quiet p c s = Quiet.bind (load_auction-Quiet p s) λ a t.
    Quiet.bind (strcat-Quiet (print_int a.id) crlf t) λ b t.
      Quiet.bind (deref-Quiet a.name t) λ n t. Quiet.bind (strcat-Quiet b n.text t) λ b t.
        Quiet.bind (strcat-Quiet b crlf t) λ b t. Quiet.bind (deref-Quiet c t) λ f t.
          Quiet.bind (strcat-Quiet b f.text t) λ b t. Quiet.bind (strcat-Quiet b crlf t) λ b t.
            Quiet.bind (strcat-Quiet b (print_int a.bid) t)
              λ b t. notify_update-Quiet b a.watchers t

pub find_auction-Quiet : (id : ℤ) (ps : List Address) (s : Server) → Quiet s (find_auction id ps s)
unfolding find_auction
find_auction-Quiet id [] s = returned none s
find_auction-Quiet id (p ∷ ps) s =
    Quiet.bind (load_auction-Quiet p s)
      λ a t. branch (eq_ℤ a.id id) _ _ (returned (some p) t) (find_auction-Quiet id ps t)

find_auction_position-Quiet :
    (id : ℤ) (ps : List Address) (s : Server) → Quiet s (find_auction_position id ps s)
unfolding find_auction_position
find_auction_position-Quiet id [] s = returned none s
find_auction_position-Quiet id (p ∷ ps) s = Quiet.bind (load_auction-Quiet p s) λ a t.
    branch (eq_ℤ id a.id) _ _ (returned (some 0) t)
      (Quiet.bind (find_auction_position-Quiet id ps t) λ r q. returned _ q)

pub remove_auction-Quiet : (p : Address) (s : Server) → Quiet s (remove_auction p s)
unfolding remove_auction find_auction_index
remove_auction-Quiet p s =
    Quiet.bind
      (Quiet.bind (load_auction-Quiet p s) λ a t.
        Quiet.bind (find_auction_position-Quiet a.id t.auctions t) λ r q. returned (to_index r) q)
      λ i t.
        Quiet.bind (deref-Quiet (remove_by_index t.auctions i) t)
          λ ps q. back (record { users = refl; auctions = refl; ids = refl })

pub charge_piece-Quiet :
    (w : CharPtr) (p : Address) (bid : ℤ) (s : Server) → Quiet s (charge_piece w p bid s)
unfolding charge_piece
charge_piece-Quiet w p bid s = Quiet.bind (user_named-Quiet w s) λ i t.
    Quiet.bind (load_user-Quiet i t)
      λ u t. Quiet.bind (sub_int-Quiet u.balance bid t) λ b t. store_user-Quiet i _ t

pub credit_piece-Quiet : (c : CharPtr) (bid : ℤ) (s : Server) → Quiet s (credit_piece c bid s)
unfolding credit_piece
credit_piece-Quiet c bid s = Quiet.bind (user_named-Quiet c s) λ i t.
    Quiet.bind (load_user-Quiet i t)
      λ u t. Quiet.bind (add_int-Quiet u.balance bid t) λ b t. store_user-Quiet i _ t

pub id_piece-Quiet : (s : Server) → Quiet s (id_piece s)
unfolding id_piece
id_piece-Quiet s =
    Quiet.bind (add_int-Quiet s.auction_id (pos 1) s)
      λ id t. back (record { users = refl; auctions = refl; ids = refl })

pub publish_piece-Quiet :
    (p : Address) (block : Auction) (fd : ℤ) (n : CharPtr) (duration price id : ℤ) (s : Server)
    → Quiet s (publish_piece p block fd n duration price id s)
unfolding publish_piece store_auction reply_with wr_msg
publish_piece-Quiet p block fd n duration price id s =
    back (record { users = refl; auctions = refl; ids = refl })

watch_reply-Quiet : (fd : ℤ) (a : Auction) (s : Server) → Quiet s (watch_reply fd a s)
unfolding watch_reply
watch_reply-Quiet fd a s = Quiet.bind (deref-Quiet a.name s) λ n t.
    Quiet.bind (strcat-Quiet [] n.text t) λ b t. Quiet.bind (strcat-Quiet b crlf t) λ b t.
      Quiet.bind (strcat-Quiet b (print_int a.bin_price) t)
        λ b t. reply_with-Quiet fd MsgType.anwatch b t

watch_found-Quiet : (fd : ℤ) (p : Address) (s : Server) → Quiet s (watch_found fd p s)
unfolding watch_found
watch_found-Quiet fd p s = Quiet.bind (load_auction-Quiet p s) λ a t.
    Quiet.bind (add_int-Quiet a.number_of_watchers (pos 1) t) λ n t.
      Quiet.bind (client_user-Quiet fd t)
        λ u t. Quiet.bind (store_auction-Quiet p _ t) λ _ t. watch_reply-Quiet fd a t

leave_found-Quiet : (c : CharPtr) (p : Address) (s : Server) → Quiet s (leave_found c p s)
unfolding leave_found find_user_index
leave_found-Quiet c p s = Quiet.bind (load_auction-Quiet p s) λ a t.
    Quiet.bind (sub_int-Quiet a.number_of_watchers (pos 1) t) λ n t.
      Quiet.bind
        (Quiet.bind (deref-Quiet (find_user_position c a.watchers) t)
          λ r q. returned (to_index r) q)
        λ i t.
          Quiet.bind (deref-Quiet (remove_by_index a.watchers i) t)
            λ ws t. store_auction-Quiet p _ t

-- What follows a search by id.
searched :
    (m : M (Unit {0})) (f : Address → M (Unit {0})) (r : Option Address) (s : Server)
    → Quiet s (m s)
    → ((p : Address) → Quiet s (f p s))
    → let k : M (Unit {0}) = elim r [ none ↦ m | some p ↦ f p ] in Quiet s (k s)
searched m f none s missed found = missed
searched m f (some p) s missed found = found p

pub watch_auction-Quiet : (fd id : ℤ) (s : Server) → Quiet s (watch_auction fd id s)
unfolding watch_auction
watch_auction-Quiet fd id s =
    Quiet.bind (find_auction-Quiet id s.auctions s)
      λ r t. searched _ _ r t (reply-Quiet fd MsgType.eannotfound t) λ p. watch_found-Quiet fd p t

pub leave_auction-Quiet : (fd id : ℤ) (s : Server) → Quiet s (leave_auction fd id s)
unfolding leave_auction
leave_auction-Quiet fd id s = Quiet.bind (client_user-Quiet fd s) λ u t.
    Quiet.bind (find_auction-Quiet id t.auctions t) λ r t.
      searched _ _ r t (reply-Quiet fd MsgType.eannotfound t)
        λ p. Quiet.bind (leave_found-Quiet u.username p t) λ _ q. reply-Quiet fd MsgType.ok q
