-- ===== src/Auctions/Close/Sold.antt =====
-- What `closeAuction` of src/helpers.c does with an auction that somebody has won.
use zbid.Base.{
  ◌≡◌, ◌≢◌, refl, ap, ◌∙◌, true, some, List, [], ◌∷◌, ◌++◌, append-nil, append_assoc, Text, ℕ, ◌+◌,
  arith, ℤ, ◌+ℤ◌, ◌-ℤ◌, leb, length, length-append, get_elem?, get_elem?-set_ne, set, fits_int, All,
}
use zbid.LinkedList.Contents.{insert_at_tail}
use zbid.Server.{CString, CharPtr, Address, User, Auction, Server}
use zbid.Server.Protocol.{Message, MsgType}
use zbid.Server.Print.{print_int, crlf}
use zbid.Server.Monad.{done}
use zbid.Server.Monad.Strcat.{strcat-fits}
use zbid.Users.Find.{find_user_struct}
use zbid.Users.Find.Known.{names, Knows}
use zbid.Users.Total.{names-set, find_user_struct-set}
use zbid.Auctions.Close.{charge_winner, pay_creator, settle_winner, notify_closed, close_auction}
use zbid.Auctions.Bid.Leading.{fd_at, find_client_fd-fd_at}

-- The winner and the creator after the payment.
abbrev pub charged : User → Address → ℤ → User
charged u p bid = record u {
  balance = u.balance -ℤ bid;
  auctions_won = insert_at_tail u.auctions_won p;
}

abbrev pub credited : User → ℤ → User
credited u bid = record u { balance = u.balance +ℤ bid }

-- The id, the winner's name and the bid.
abbrev pub sold_text : Auction → CString → Text
sold_text a w = print_int a.id ++ crlf ++ w.text ++ crlf ++ print_int a.bid

abbrev pub closed_message : Text → ℤ → Message
closed_message body fd = record {
  fd = fd;
  msg_type = MsgType.anclosed;
  msg_len = length body + 1;
  msgbuf = body;
}

-- One message for each watcher, in the order of the watchers.
unfoldable pub all_told : List User → Text → List CharPtr → List Message
all_told us body [] = []
all_told us body (w ∷ ws) =
    closed_message body (fd_at us (find_user_struct w us)) ∷ all_told us body ws

notify_closed-all_told :
    (body : Text) (ws : List CharPtr) (s : Server)
    → All (Knows (names s.users)) ws
    → notify_closed body ws s ≡ done tt (record s { sent = s.sent ++ all_told s.users body ws })
unfolding notify_closed all_told
notify_closed-all_told body [] s known = rw (append-nil s.sent) refl
notify_closed-all_told body (w ∷ ws) s (kw, known) = rw (find_client_fd-fd_at w s kw) (
    notify_closed-all_told body ws (record s { sent = _ }) known
    ∙ ap (λ ms. done tt (record s { sent = ms }))
        (append_assoc s.sent (_ ∷ []) (all_told s.users body ws)))

charge_winner-run :
    (w : CString) (p : Address) (bid : ℤ) (i : ℕ) (u : User) (s : Server)
    → s.users_mutex ≡ 1
    → find_user_struct (some w) s.users ≡ some (some i)
    → get_elem? s.users i ≡ some u
    → fits_int (u.balance -ℤ bid) ≡ true
    → charge_winner (some w) p bid s
      ≡ done tt (record s { users = set s.users i (charged u p bid) })
unfolding charge_winner
charge_winner-run w p bid i u s free found at fits = rw (free, found, at, fits) refl

pay_creator-run :
    (c : CString) (bid : ℤ) (j : ℕ) (v : User) (s : Server)
    → s.users_mutex ≡ 1
    → find_user_struct (some c) s.users ≡ some (some j)
    → get_elem? s.users j ≡ some v
    → fits_int (v.balance +ℤ bid) ≡ true
    → pay_creator (some c) bid s ≡ done tt (record s { users = set s.users j (credited v bid) })
unfolding pay_creator
pay_creator-run c bid j v s free found at fits = rw (free, found, at, fits) refl

pub prefix-fits :
    (x y : Text) → leb (length (x ++ y) + 1) 1024 ≡ true → leb (length x + 1) 1024 ≡ true
prefix-fits x y fits = ground (arith, length-append x y)

settle_winner-run :
    (a : Auction) (p : Address) (w : CString) (i : ℕ) (u : User) (s : Server)
    → a.current_winner ≡ some w
    → s.users_mutex ≡ 1
    → find_user_struct (some w) s.users ≡ some (some i)
    → get_elem? s.users i ≡ some u
    → fits_int (u.balance -ℤ a.bid) ≡ true
    → leb (length (sold_text a w) + 1) 1024 ≡ true
    → settle_winner a p (print_int a.id ++ crlf) s
      ≡ done (sold_text a w) (record s { users = set s.users i (charged u p a.bid) })
unfolding settle_winner
settle_winner-run a p w i u s won free found at fits short =
    let b = print_int a.id ++ crlf in
    let third = prefix-fits (b ++ w.text ++ crlf) (print_int a.bid) short in
    let second = prefix-fits (b ++ w.text) crlf third in
    rw
      (
        won,
        settle_winner,
        strcat-fits b w.text s second,
        strcat-fits (b ++ w.text) crlf s third,
        strcat-fits (b ++ w.text ++ crlf) (print_int a.bid) s short,
        charge_winner-run w p a.bid i u s free found at fits,
      )
      refl

-- The users after the sale.
abbrev pub settled : List User → ℕ → User → ℕ → User → Address → ℤ → List User
settled us i u j v p bid = set (set us i (charged u p bid)) j (credited v bid)

-- The two parties, by their positions, and that all `int`s and texts fit.
pub record Sale (s : Server) (p : Address) (a : Auction) (w c : CString) (i j : ℕ) (u v : User)
    : Type 0 where
  pub won : a.current_winner ≡ some w
  pub made : a.creator ≡ some c
  pub winner : find_user_struct (some w) s.users ≡ some (some i)
  pub creator : find_user_struct (some c) s.users ≡ some (some j)
  pub winner_at : get_elem? s.users i ≡ some u
  pub creator_at : get_elem? s.users j ≡ some v
  pub apart : i ≢ j
  pub pays : fits_int (u.balance -ℤ a.bid) ≡ true
  pub earns : fits_int (v.balance +ℤ a.bid) ≡ true
  pub short : leb (length (sold_text a w) + 1) 1024 ≡ true

pub close_auction-Sold :
    (s : Server) (p : Address) (a : Auction) (w c : CString) (i j : ℕ) (u v : User)
    → s.users_mutex ≡ 1
    → s.heap p ≡ some a
    → All (Knows (names s.users)) a.watchers
    → Sale s p a w c i j u v
    → let us = settled s.users i u j v p a.bid in
      close_auction p s
      ≡ done tt (record s { users = us; sent = s.sent ++ all_told us (sold_text a w) a.watchers })
unfolding close_auction
close_auction-Sold s p a w c i j u v free here known sale =
    let us = set s.users i (charged u p a.bid) in
    let third =
      prefix-fits (print_int a.id ++ crlf ++ w.text ++ crlf) (print_int a.bid) sale.short in
    let second = prefix-fits (print_int a.id ++ crlf ++ w.text) crlf third in
    let first = prefix-fits (print_int a.id ++ crlf) w.text second in
    let still : find_user_struct (some c) us ≡ some (some j) =
      find_user_struct-set (some c) s.users i u (charged u p a.bid) (some (some j)) sale.winner_at
        refl sale.creator in
    let there : get_elem? us j ≡ some v =
      get_elem?-set_ne s.users i j (charged u p a.bid) sale.apart ∙ sale.creator_at in
    let same : names (set us j (credited v a.bid)) ≡ names s.users =
      names-set us j v (credited v a.bid) there refl
      ∙ names-set s.users i u (charged u p a.bid) sale.winner_at refl in
    rw
      (
        here,
        strcat-fits (print_int a.id) crlf s first,
        settle_winner-run a p w i u s sale.won free sale.winner sale.winner_at sale.pays sale.short,
        sale.made,
        pay_creator-run c a.bid j v (record s { users = us }) free still there sale.earns,
      )
      (notify_closed-all_told (sold_text a w) a.watchers
        (record s { users = set us j (credited v a.bid) }) (rw same known))
