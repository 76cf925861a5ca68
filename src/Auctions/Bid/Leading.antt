-- ===== src/Auctions/Bid/Leading.antt =====
-- What `bidAuction` of src/helpers.c does for a bid that leads: the auction, and who is told.
use zbid.Base.{
  ◌≡◌, refl, true, Bool-cases, inl, inr, Option, none, some, List, [], ◌∷◌, ◌++◌, Text, ℤ, negsuc,
  eq_ℤ, leb, length, ◌+◌, All, append_assoc, append-nil, get_elem?, ap, ◌∙◌, if◌then◌else◌, ℕ,
}
use zbid.Server.{CString, CharPtr, Address, User, Auction, Server, write}
use zbid.Server.Protocol.{Message, MsgType}
use zbid.Server.Print.{print_int, crlf}
use zbid.Server.Monad.{done, and_then}
use zbid.Server.Monad.Strcat.{join, strcats_then, strcats_then-join, strcat-fits}
use zbid.Users.Find.{find_user_struct, find_client_fd, client_user}
use zbid.Users.Find.Known.{names, Knows, find_user_struct-names, get_elem?-of_found}
use zbid.Auctions.Find.{find_auction}
use zbid.Auctions.Bid.{place_bid, bid_auction, update_auction, notify_update}
use zbid.Auctions.Bid.Outcome.{Leads, found-IsSound, bid_auction-watches}
use zbid.Invariant.{IsValid}
use zbid.Invariant.Update.{write_self}

abbrev pub user_fd : Option User → ℤ
user_fd none = negsuc 0
user_fd (some u) = u.fd

-- The descriptor of the first user with the name, -1 where nobody has it.
abbrev pub fd_at : List User → Option (Option ℕ) → ℤ
fd_at us none = negsuc 0
fd_at us (some none) = negsuc 0
fd_at us (some (some i)) = user_fd (get_elem? us i)

abbrev pub update_message : Text → ℤ → Message
update_message body fd = record {
  fd = fd;
  msg_type = MsgType.anupdate;
  msg_len = length body + 1;
  msgbuf = body;
}

-- One message for each watcher who is connected, in the order of the watchers.
unfoldable pub told : List User → Text → List CharPtr → List Message
told us body [] = []
told us body (w ∷ ws) =
    let fd : ℤ = fd_at us (find_user_struct w us) in
    let rest = told us body ws in if eq_ℤ fd (negsuc 0) then rest else update_message body fd ∷ rest

pub find_client_fd-fd_at :
    (c : CharPtr) (s : Server)
    → Knows (names s.users) c
    → find_client_fd c s ≡ done (fd_at s.users (find_user_struct c s.users)) s
unfolding find_client_fd
find_client_fd-fd_at c s (i, found) =
    let (u, at) = get_elem?-of_found c s.users i found in
    rw (find_user_struct-names c s.users, found, at) refl

notify_update-told :
    (body : Text) (ws : List CharPtr) (s : Server)
    → All (Knows (names s.users)) ws
    → notify_update body ws s ≡ done tt (record s { sent = s.sent ++ told s.users body ws })
unfolding notify_update told
notify_update-told body [] s known = rw (append-nil s.sent) refl
notify_update-told body (w ∷ ws) s (kw, known) =
    elim (Bool-cases (eq_ℤ (fd_at s.users (find_user_struct w s.users)) (negsuc 0))) [
      | inl gone ↦ rw (find_client_fd-fd_at w s kw, gone) (notify_update-told body ws s known)
      | inr here ↦
          rw (find_client_fd-fd_at w s kw, here)
            (notify_update-told body ws (record s { sent = _ }) known
              ∙ ap (λ ms. done tt (record s { sent = ms }))
                  (append_assoc s.sent (_ ∷ []) (told s.users body ws)))
    ]

-- What the watchers are told: the id, the name of the item, the bidder and the bid.
abbrev pub update_text : Auction → CString → CString → Text
update_text a n w =
    join (print_int a.id) (crlf ∷ n.text ∷ crlf ∷ w.text ∷ crlf ∷ print_int a.bid ∷ [])

update_auction-told :
    (p : Address) (a : Auction) (n w : CString) (s : Server)
    → s.heap p ≡ some a
    → a.name ≡ some n
    → All (Knows (names s.users)) a.watchers
    → leb (length (update_text a n w) + 1) 1024 ≡ true
    → update_auction p (some w) s
      ≡ done tt (record s { sent = s.sent ++ told s.users (update_text a n w) a.watchers })
unfolding update_auction strcats_then
update_auction-told p a n w s at named known fits =
    rw (at, named)
      (strcats_then-join crlf (n.text ∷ crlf ∷ w.text ∷ crlf ∷ print_int a.bid ∷ [])
          (λ buf. notify_update buf a.watchers) (print_int a.id) s
        ∙ ap (λ r. and_then r (λ buf. notify_update buf a.watchers))
            (strcat-fits (print_int a.id) _ s fits)
        ∙ notify_update-told (update_text a n w) a.watchers s known)

-- The auction with a new leader.
abbrev pub leading : Auction → CString → ℤ → Auction
leading a w bid = record a { bid = bid; current_winner = some w }

-- A message without a body.
abbrev pub answer : ℤ → MsgType → Message
answer fd type = record { fd = fd; msg_type = type; msg_len = 0; msgbuf = [] }

-- A bid that is higher than the last one and does not buy, by a logged-in watcher who has not
-- created the auction, in a valid state and with an update that fits in 1024 bytes, returns: the
-- auction has the new bid and leader, each connected watcher is sent one update with the id, the
-- item, the bidder and the bid, in the order of the watchers, then the bidder is sent OK, and
-- nothing else changes.
pub bid_auction-Leads :
    (client_fd auction_id bid : ℤ) (s : Server) (u : User) (n w : CString) (p : Address)
    (a : Auction)
    → IsValid s
    → client_user client_fd s ≡ done u s
    → u.username ≡ some w
    → find_auction auction_id s.auctions s ≡ done (some p) s
    → s.heap p ≡ some a
    → a.name ≡ some n
    → Leads w bid a
    → leb (length (update_text (leading a w bid) n w) + 1) 1024 ≡ true
    → bid_auction client_fd auction_id bid s
      ≡ done tt (record s {
        heap = write s.heap p (leading a w bid);
        sent =
            s.sent
            ++ told s.users (update_text (leading a w bid) n w) a.watchers
            ++ answer client_fd MsgType.ok ∷ [];
      })
unfolding place_bid
bid_auction-Leads client_fd auction_id bid s u n w p a v user name found at named leads fits =
    bid_auction-watches client_fd auction_id bid s u w p a v user name found at leads.others
    ∙ rw (leads.watching, at, leads.not_bought, leads.higher, v.ids_free)
        (rw
          (update_auction-told p (leading a w bid) n w
            (record s { heap = write s.heap p (leading a w bid); auction_id_mutex = 0 })
            (write_self s.heap p (leading a w bid)) named
            (found-IsSound auction_id s p a v found at).watching fits)
          refl)
