-- ===== src/System/House/Watching.antt =====
-- `watchAuction` and `leaveAuction` of src/helpers.c do what the house does for a watcher.
use zbid.Base.{
  ◌≡◌, refl, ap, ◌∙◌, Bool-cases, inl, inr, Option, none, some, ℕ, get_elem?, set, ℤ, pos, fits_int,
  ◌+ℤ◌, ◌-ℤ◌,
}
use zbid.LinkedList.Contents.{remove_nth}
use zbid.Server.{Address, User, Auction, Server, write}
use zbid.Server.Monad.{done}
use zbid.Server.Monad.Ensures
use zbid.Server.Monad.Ensures.{Ensures, returns, bounded}
use zbid.Users.Find.{find_username, find_user_position, find_user_index, client_user}
use zbid.Users.Find.Known.{names, Knows}
use zbid.Auctions.Find.{find_auction}
use zbid.Auctions.Sound.{IsSound}
use zbid.Auctions.Watch.{insert_name, watch_found, leave_found, watch_auction, leave_auction}
use zbid.Invariant.{IsValid}
use zbid.Invariant.Lookup.{Found, find_auction-done}
use zbid.Invariant.Watching.{watched, watch_reply-OnlySends}
use zbid.System.House.{house, lots_of, accounts_of, watch, leave, without}
use zbid.System.House.Lots.{find_lot-none, find_lot-some, lots_of-set}
use zbid.System.House.Accounts.{without-remove_nth}

-- A listed auction is rewritten.
house-store :
    (s : Server) (k : ℕ) (p : Address) (b : Auction)
    → IsValid s
    → get_elem? s.auctions k ≡ some p
    → house (record s { heap = write s.heap p b })
      ≡ record (house s) { lots = set (lots_of s.heap s.auctions) k b }
house-store s k p b v at = λ i. record {
  lots = lots_of-set s.heap (names s.users) p b s.auctions k v.listed v.numbered.1 at i;
  accounts = accounts_of s.users;
  last_id = s.auction_id;
}

module _ (client_fd auction_id : ℤ) (i : ℕ) (u : User) (s : Server) (v : IsValid s)
    (found : find_username client_fd s.users ≡ some i) (at : get_elem? s.users i ≡ some u) where
  watch_found-house :
      (k : ℕ) (p : Address) (a : Auction)
      → get_elem? s.auctions k ≡ some p
      → s.heap p ≡ some a
      → IsSound (names s.users) a
      → Ensures
          (λ _ t. house t ≡ record (house s) {
            lots =
                set
                  (lots_of s.heap s.auctions)
                  k
                  (watched a (a.number_of_watchers +ℤ pos 1) (insert_name u.username a.watchers));
          })
          (watch_found client_fd p s)
  unfolding watch_found client_user
  watch_found-house k p a listed here sound =
      let n = a.number_of_watchers +ℤ pos 1 in
      let b = watched a n (insert_name u.username a.watchers) in
      elim (Bool-cases (fits_int n)) [
        | inl fits ↦
            rw (here, fits, found, at)
              (Ensures.mono
                (watch_reply-OnlySends client_fd a sound.named.0
                  (record s { heap = write s.heap p b }) sound.named.1)
                λ _ t (ms, e). ap house e ∙ house-store s k p b v listed)
        | inr big ↦ rw (here, big) (bounded tt)
      ]

  -- A logged-in client watches: where an auction has the id, the first of these gains a watcher.
  pub watch_auction-house :
      Ensures
        (λ _ t. house t ≡ watch u.username auction_id (house s))
        (watch_auction client_fd auction_id s)
  unfolding watch_auction
  watch_auction-house = go (find_auction-done auction_id s.auctions s v.listed)
    where
      go :
          ((r : Option Address) × (find_auction auction_id s.auctions s ≡ done r s)
            × Found s auction_id s.auctions r)
          → Ensures
              (λ _ t. house t ≡ watch u.username auction_id (house s))
              (watch_auction client_fd auction_id s)
      go (none, e, _) =
          rw (e, find_lot-none s (names s.users) auction_id s.auctions v.listed e) (returns refl)
      go (some p, e, (a, here, _, sound, _)) =
          let (k, listed, lot) =
            find_lot-some s (names s.users) auction_id s.auctions p a v.listed here e in
          rw (e, lot) (watch_found-house k p a listed here sound)

  -- A logged-in client leaves an auction that it watches: where an auction has the id, the first of
  -- these loses the first watcher with the client's name.
  pub leave_auction-house :
      ((p : Address) (a : Auction)
        → s.heap p ≡ some a
        → a.id ≡ auction_id
        → Knows a.watchers u.username)
      → Ensures
          (λ _ t. house t ≡ leave u.username auction_id (house s))
          (leave_auction client_fd auction_id s)
  unfolding leave_auction leave_found find_user_index
  leave_auction-house watches = go (find_auction-done auction_id s.auctions s v.listed)
    where
      leaves :
          (p : Address) (a : Auction) (j k : ℕ)
          → find_auction auction_id s.auctions s ≡ done (some p) s
          → s.heap p ≡ some a
          → get_elem? s.auctions k ≡ some p
          → find_user_position u.username a.watchers ≡ some (some j)
          → Ensures
              (λ _ t. house t ≡ record (house s) {
                lots =
                    set
                      (lots_of s.heap s.auctions)
                      k
                      (watched a (a.number_of_watchers -ℤ pos 1) (without u.username a.watchers));
              })
              (leave_auction client_fd auction_id s)
      leaves p a j k e here listed watching =
          let n = a.number_of_watchers -ℤ pos 1 in
          elim (Bool-cases (fits_int n)) [
            | inl fits ↦ rw (without-remove_nth u.username a.watchers j watching) (
                rw (found, at, e, here, fits, watching)
                  (returns (house-store s k p (watched a n (remove_nth a.watchers j)) v listed)))
            | inr big ↦ rw (found, at, e, here, big) (bounded tt)
          ]

      go :
          ((r : Option Address) × (find_auction auction_id s.auctions s ≡ done r s)
            × Found s auction_id s.auctions r)
          → Ensures
              (λ _ t. house t ≡ leave u.username auction_id (house s))
              (leave_auction client_fd auction_id s)
      go (none, e, _) =
          rw (find_lot-none s (names s.users) auction_id s.auctions v.listed e)
            (rw (found, at, e) (returns refl))
      go (some p, e, (a, here, same, _, _)) =
          let (j, watching) = watches p a here same in
          let (k, listed, lot) =
            find_lot-some s (names s.users) auction_id s.auctions p a v.listed here e in
          rw lot (leaves p a j k e here listed watching)
