-- ===== src/Invariant/Bidding.antt =====
-- `bidAuction` of src/helpers.c and the invariant.
use zbid.Base.{
  ℕ, ◌≡◌, refl, ap, sym, subst, Option, none, some, List, [], ◌∷◌, inl, inr, get_elem?, ℤ, negsuc,
  eq_ℤ, ltb_ℤ, All, Bool-cases, Text, ◌&&◌, str_eq,
}
use zbid.Server.{CString, CharPtr, Address, Server, Auction, write}
use zbid.Server.Print.{print_int, crlf}
use zbid.Server.Monad.{done, and_then, strcmp}
use zbid.Server.Monad.Ensures
use zbid.Server.Monad.Ensures.{Ensures, returns, bounded}
use zbid.Users.Find.{find_username}
use zbid.Users.Find.Known.{names, Knows}
use zbid.Auctions.Sound.{IsSound}
use zbid.Auctions.Ids.{id_of}
use zbid.Auctions.Find.{find_auction, remove_auction}
use zbid.Auctions.Close.{close_auction}
use zbid.Auctions.Close.Settle.{strcat-Ensures, find_client_fd-done, close_auction-Paid}
use zbid.Auctions.Bid.{
  notify_update, update_auction, place_bid, same_pointer, bid_as_watcher, bid_found, bid_in,
  bid_auction,
}
use zbid.Invariant.{Listed, IsValid, Keeps}
use zbid.Invariant.Lookup.{
  Found, find_auction-done, client_user-done, Knows-self, Knows-IsNonNull, not-Knows-none,
}
use zbid.Invariant.Update.{
  OnlySends, sent-Keeps, write_self, Keeps-refl, Keeps-trans, store-Keeps, remove_auction-Keeps,
  Paid-Keeps,
}

-- `updateAuction` writes to no user and no auction.
notify_update-OnlySends :
    (buf : Text) (ws : List CharPtr) (s : Server)
    → All (Knows (names s.users)) ws
    → Ensures (λ _ t. OnlySends s t) (notify_update buf ws s)
unfolding notify_update
notify_update-OnlySends buf [] s known = returns (s.sent, refl)
notify_update-OnlySends buf (w ∷ ws) s known =
    let (fd, e) = find_client_fd-done w s known.0 in
    elim (Bool-cases (eq_ℤ fd (negsuc 0))) [
      | inl gone ↦ rw (e, gone) (notify_update-OnlySends buf ws s known.1)
      | inr here ↦ rw (e, here) (notify_update-OnlySends buf ws (record s { sent = _ }) known.1)
    ]

pub update_auction-OnlySends :
    (p : Address) (w : CString) (a : Auction) (s : Server)
    → s.heap p ≡ some a
    → IsSound (names s.users) a
    → Ensures (λ _ t. OnlySends s t) (update_auction p (some w) s)
unfolding update_auction
update_auction-OnlySends p w a s at sound =
    let (n, named) = sound.named in
    rw at (
      Ensures.bind (strcat-Ensures (print_int a.id) crlf s) λ b t e.
        rw (e, named)
          (Ensures.bind (strcat-Ensures b n.text s) λ b t e. rw e (
            Ensures.bind (strcat-Ensures b crlf s) λ b t e. rw e (
              Ensures.bind (strcat-Ensures b w.text s) λ b t e. rw e (
                Ensures.bind (strcat-Ensures b crlf s) λ b t e. rw e (
                  Ensures.bind (strcat-Ensures b (print_int a.bid) s)
                    λ b t e. rw e (notify_update-OnlySends b a.watchers s sound.watching)))))))

-- The auction with a new leader.
abbrev pub led : Auction → CString → ℤ → Auction
led a w bid = record a { bid = bid; current_winner = some w }

pub led-IsSound :
    (ns : List CharPtr) (a : Auction) (w : CString) (bid : ℤ)
    → IsSound ns a
    → Knows ns (some w)
    → IsSound ns (led a w bid)
led-IsSound ns a w bid sound known = record {
  created = sound.created;
  led = known;
  watching = sound.watching;
  named = sound.named;
}

module _ (client_fd : ℤ) (w : CString) (p : Address) (bid : ℤ) (a : Auction) (i : ℕ) (s : Server)
    (v : IsValid s) (known : Knows (names s.users) (some w)) (here : s.heap p ≡ some a)
    (sound : IsSound (names s.users) a) (at : get_elem? s.auctions i ≡ some p) where
  abbrev stored : Server
  stored = record s { heap = write s.heap p (led a w bid) }

  stored-Keeps : Keeps s stored
  stored-Keeps =
      store-Keeps p (led a w bid) s v (led-IsSound (names s.users) a w bid sound known)
        (ap id_of here)

  -- A bid above the price buys the auction.
  buy-Keeps : Ensures (λ _ t. Keeps s t) (and_then (close_auction p stored) λ _. remove_auction p)
  buy-Keeps =
      Ensures.bind
        (close_auction-Paid p (led a w bid) stored v.users_free (write_self s.heap p (led a w bid))
          (led-IsSound (names s.users) a w bid sound known))
        λ _ t paid.
          let kept = Paid-Keeps stored t paid stored-Keeps.valid in
          Ensures.mono
            (remove_auction-Keeps p (led a w bid) i t kept.valid
              (rw paid.frame.same_heap (write_self s.heap p (led a w bid)))
              (rw paid.frame.same_auctions at))
            λ _ r removed. Keeps-trans stored-Keeps (Keeps-trans kept removed)

  place_bid-Keeps : Ensures (λ _ t. Keeps s t) (place_bid client_fd (some w) p bid s)
  unfolding place_bid
  place_bid-Keeps = elim (Bool-cases (a.bin_flag && ltb_ℤ a.bin_price bid)) [
    | inl buys ↦ rw (here, buys) buy-Keeps
    | inr not_bought ↦ elim (Bool-cases (ltb_ℤ a.bid bid)) [
      | inl leads ↦
          rw (here, not_bought, leads, v.ids_free)
            (Ensures.bind
              (update_auction-OnlySends p w (led a w bid) (record stored { auction_id_mutex = 0 })
                (write_self s.heap p (led a w bid))
                (led-IsSound (names s.users) a w bid sound known))
              λ _ t (ms, e). rw e (
                returns (record {
                  valid = record {
                    listed = stored-Keeps.valid.listed;
                    named = v.named;
                    secured = v.secured;
                    held = stored-Keeps.valid.held;
                    users_free = v.users_free;
                    numbered = stored-Keeps.valid.numbered;
                    ids_free = refl;
                  };
                  money = refl;
                  mutex = refl;
                })))
      | inr low ↦ rw (here, not_bought, low) (returns (sent-Keeps s _ v))
    ]
  ]

  bid_as_watcher-Keeps :
      (ws : List CharPtr)
      → All (Knows (names s.users)) ws
      → Ensures (λ _ t. Keeps s t) (bid_as_watcher client_fd (some w) p bid ws s)
  unfolding bid_as_watcher strcmp
  bid_as_watcher-Keeps [] watching = returns (sent-Keeps s _ v)
  bid_as_watcher-Keeps (none ∷ ws) (nobody, watching) =
      absurd (not-Knows-none (names s.users) nobody)
  bid_as_watcher-Keeps (some x ∷ ws) (somebody, watching) =
      elim (Bool-cases (str_eq x.text w.text)) [
        | inl same ↦ rw same place_bid-Keeps
        | inr other ↦ rw other (bid_as_watcher-Keeps ws watching)
      ]

  bid_found-Keeps : Ensures (λ _ t. Keeps s t) (bid_found client_fd (some w) p bid s)
  unfolding bid_found
  bid_found-Keeps = elim (Bool-cases (same_pointer a.creator (some w))) [
    | inl own ↦ rw (here, own) (returns (sent-Keeps s _ v))
    | inr others ↦ rw (here, others) (bid_as_watcher-Keeps a.watchers sound.watching)
  ]

bid_in-Keeps :
    (client_fd : ℤ) (w : CString) (auction_id bid : ℤ) (ps : List Address) (s : Server)
    → IsValid s
    → Knows (names s.users) (some w)
    → ps ≡ s.auctions
    → Ensures (λ _ t. Keeps s t) (bid_in client_fd (some w) auction_id bid ps s)
unfolding bid_in
bid_in-Keeps client_fd w auction_id bid [] s v known e = returns (sent-Keeps s _ v)
bid_in-Keeps client_fd w auction_id bid (q ∷ qs) s v known e = go (
    find_auction-done auction_id (q ∷ qs) s
      (subst (All (Listed s.heap (names s.users))) (sym e) v.listed))
  where
    go :
        ((r : Option Address) × (find_auction auction_id (q ∷ qs) s ≡ done r s)
          × Found s auction_id (q ∷ qs) r)
        → Ensures (λ _ t. Keeps s t) (bid_in client_fd (some w) auction_id bid (q ∷ qs) s)
    go (none, found, _) = rw found (returns (Keeps-refl s v))
    go (some p, found, (a, here, same, sound, (i, at))) = rw found (
        bid_found-Keeps client_fd w p bid a i s v known here sound
          (subst (λ ps. get_elem? ps i ≡ some p) e at))

-- A bid by a client that is logged in dereferences no NULL pointer and waits for no semaphore, and
-- where it returns, the invariant holds, the sum of all balances is what it was and the semaphore
-- of the auctions is untouched. It may stop only at a full buffer or an `int` out of range.
pub bid_auction-Keeps :
    (client_fd auction_id bid : ℤ) (i : ℕ) (s : Server)
    → IsValid s
    → find_username client_fd s.users ≡ some i
    → Ensures (λ _ t. Keeps s t) (bid_auction client_fd auction_id bid s)
unfolding bid_auction
bid_auction-Keeps client_fd auction_id bid i s v found =
    let (u, e, at, _) = client_user-done client_fd s i found in
    let known : Knows (names s.users) u.username = Knows-self s.users i u at v.named in
    let (w, named) = Knows-IsNonNull (names s.users) u.username known in
    rw (e, named) (bid_in-Keeps client_fd w auction_id bid s.auctions s v (rw named at known) refl)
