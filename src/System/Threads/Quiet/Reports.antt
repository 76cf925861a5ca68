-- ===== src/System/Threads/Quiet/Reports.antt =====
-- The answers of src/helpers.c to questions leave every semaphore as it is.
use zbid.Base.{none, some, List, [], ◌∷◌, ℤ, eq_ℤ, Text}
use zbid.Server.{CharPtr, Address, User, Auction, Server}
use zbid.Server.Protocol.{MsgType}
use zbid.Server.Print.{print_int, semicolon, newline}
use zbid.Server.Monad.{M, and_then, strcat}
use zbid.Reports.Listing.{
  auction_info, list_loop, list_reply, list_auctions, users_loop, print_users,
}
use zbid.Reports.Account.{
  none_text, user_balance, users_wins_info, users_sales_info, info_loop, info_reply, users_wins,
  users_sales,
}
use zbid.System.Threads.Quiet
use zbid.System.Threads.Quiet.{
  Quiet, branch, returned, deref-Quiet, load_auction-Quiet, strcat-Quiet, reply-Quiet,
  reply_with-Quiet, client_user-Quiet,
}

auction_info-Quiet : (a : Auction) (buf : Text) (s : Server) → Quiet s (auction_info a buf s)
unfolding auction_info
auction_info-Quiet a buf s = Quiet.bind (strcat-Quiet buf (print_int a.id) s) λ b t.
    Quiet.bind (strcat-Quiet b semicolon t) λ b t. Quiet.bind (deref-Quiet a.name t) λ n t.
      Quiet.bind (strcat-Quiet b n.text t) λ b t. Quiet.bind (strcat-Quiet b semicolon t) λ b t.
        Quiet.bind (strcat-Quiet b (print_int a.bin_price) t) λ b t.
          Quiet.bind (strcat-Quiet b semicolon t) λ b t.
            Quiet.bind (strcat-Quiet b (print_int a.number_of_watchers) t) λ b t.
              Quiet.bind (strcat-Quiet b semicolon t) λ b t.
                Quiet.bind (strcat-Quiet b (print_int a.bid) t) λ b t.
                  Quiet.bind (strcat-Quiet b semicolon t) λ b t.
                    Quiet.bind (strcat-Quiet b (print_int a.duration) t)
                      λ b t. strcat-Quiet b newline t

list_loop-Quiet : (ps : List Address) (buf : Text) (s : Server) → Quiet s (list_loop ps buf s)
unfolding list_loop
list_loop-Quiet [] buf s = returned buf s
list_loop-Quiet (p ∷ ps) buf s =
    Quiet.bind (load_auction-Quiet p s)
      λ a t. Quiet.bind (auction_info-Quiet a buf t) λ b t. list_loop-Quiet ps b t

list_reply-Quiet : (fd : ℤ) (ps : List Address) (s : Server) → Quiet s (list_reply fd ps s)
unfolding list_reply
list_reply-Quiet fd [] s = reply-Quiet fd MsgType.anlist s
list_reply-Quiet fd (p ∷ ps) s =
    Quiet.bind (list_loop-Quiet (p ∷ ps) [] s) λ b t. reply_with-Quiet fd MsgType.anlist b t

pub list_auctions-Quiet : (fd : ℤ) (s : Server) → Quiet s (list_auctions fd s)
unfolding list_auctions
list_auctions-Quiet fd s = list_reply-Quiet fd s.auctions s

users_loop-Quiet :
    (fd : ℤ) (us : List User) (buf : Text) (s : Server) → Quiet s (users_loop fd us buf s)
unfolding users_loop
users_loop-Quiet fd [] buf s = returned buf s
users_loop-Quiet fd (u ∷ us) buf s =
    Quiet.bind
      (branch (eq_ℤ u.fd fd) _ _ (returned buf s) (
        Quiet.bind (deref-Quiet u.username s)
          λ n t. Quiet.bind (strcat-Quiet buf n.text t) λ b t. strcat-Quiet b newline t))
      λ b t. users_loop-Quiet fd us b t

pub print_users-Quiet : (stack : Text) (fd : ℤ) (s : Server) → Quiet s (print_users stack fd s)
unfolding print_users
print_users-Quiet stack fd s =
    Quiet.bind (users_loop-Quiet fd s.users stack s) λ b t. reply_with-Quiet fd MsgType.usrlist b t

pub user_balance-Quiet : (fd : ℤ) (s : Server) → Quiet s (user_balance fd s)
unfolding user_balance
user_balance-Quiet fd s = Quiet.bind (client_user-Quiet fd s) λ u t.
    Quiet.bind (strcat-Quiet [] (print_int u.balance) t)
      λ b t. reply_with-Quiet fd MsgType.usrblnc b t

users_wins_info-Quiet : (a : Auction) (buf : Text) (s : Server) → Quiet s (users_wins_info a buf s)
unfolding users_wins_info
users_wins_info-Quiet a buf s = Quiet.bind (strcat-Quiet buf (print_int a.id) s) λ b t.
    Quiet.bind (strcat-Quiet b semicolon t) λ b t. Quiet.bind (deref-Quiet a.name t) λ n t.
      Quiet.bind (strcat-Quiet b n.text t) λ b t.
        Quiet.bind (strcat-Quiet b semicolon t)
          λ b t. Quiet.bind (strcat-Quiet b (print_int a.bid) t) λ b t. strcat-Quiet b newline t

-- The winner and the bid, or "None" twice.
sale_line :
    (a : Auction) (c : CharPtr) (b : Text) (t : Server)
    → let m : M Text = elim c [
      | some w ↦ (λ q. and_then (strcat b w.text q) λ b. λ q.
          and_then
            (strcat b semicolon q)
            λ b. λ q. and_then (strcat b (print_int a.bid) q) λ b. strcat b newline)
      | none ↦ (λ q. and_then (strcat b none_text q) λ b. λ q.
          and_then
            (strcat b semicolon q)
            λ b. λ q. and_then (strcat b none_text q) λ b. strcat b newline)
    ] in
      Quiet t (m t)
sale_line a (some w) b t = Quiet.bind (strcat-Quiet b w.text t) λ b t.
    Quiet.bind (strcat-Quiet b semicolon t)
      λ b t. Quiet.bind (strcat-Quiet b (print_int a.bid) t) λ b t. strcat-Quiet b newline t
sale_line a none b t = Quiet.bind (strcat-Quiet b none_text t) λ b t.
    Quiet.bind (strcat-Quiet b semicolon t)
      λ b t. Quiet.bind (strcat-Quiet b none_text t) λ b t. strcat-Quiet b newline t

users_sales_info-Quiet :
    (a : Auction) (buf : Text) (s : Server) → Quiet s (users_sales_info a buf s)
unfolding users_sales_info
users_sales_info-Quiet a buf s = Quiet.bind (strcat-Quiet buf (print_int a.id) s) λ b t.
    Quiet.bind (strcat-Quiet b semicolon t) λ b t. Quiet.bind (deref-Quiet a.name t) λ n t.
      Quiet.bind (strcat-Quiet b n.text t)
        λ b t. Quiet.bind (strcat-Quiet b semicolon t) λ b t. sale_line a a.current_winner b t

-- The loop of both handlers, over a line that leaves the semaphores as they are.
module _ (info : Auction → Text → M Text)
    (quiet : (a : Auction) (b : Text) (s : Server) → Quiet s (info a b s)) where
  info_loop-Quiet :
      (ps : List Address) (buf : Text) (s : Server) → Quiet s (info_loop info ps buf s)
  unfolding info_loop
  info_loop-Quiet [] buf s = returned buf s
  info_loop-Quiet (p ∷ ps) buf s =
      Quiet.bind (load_auction-Quiet p s)
        λ a t. Quiet.bind (quiet a buf t) λ b t. info_loop-Quiet ps b t

  info_reply-Quiet :
      (fd : ℤ) (type : MsgType) (ps : List Address) (s : Server)
      → Quiet s (info_reply fd type info ps s)
  unfolding info_reply
  info_reply-Quiet fd type [] s = reply-Quiet fd type s
  info_reply-Quiet fd type (p ∷ ps) s =
      Quiet.bind (info_loop-Quiet (p ∷ ps) [] s) λ b t. reply_with-Quiet fd type b t

pub users_wins-Quiet : (fd : ℤ) (s : Server) → Quiet s (users_wins fd s)
unfolding users_wins
users_wins-Quiet fd s = Quiet.bind (client_user-Quiet fd s) λ u t.
    info_reply-Quiet users_wins_info users_wins_info-Quiet fd MsgType.usrwins u.auctions_won t

pub users_sales-Quiet : (fd : ℤ) (s : Server) → Quiet s (users_sales fd s)
unfolding users_sales
users_sales-Quiet fd s = Quiet.bind (client_user-Quiet fd s) λ u t.
    info_reply-Quiet users_sales_info users_sales_info-Quiet fd MsgType.usrsales u.auctions_owned t
