-- ===== src/Invariant/Watching.antt =====
-- `watchAuction` and `leaveAuction` of src/helpers.c and the invariant.
pub mod Back
use zbid.Base.{
  ℕ, ◌≡◌, refl, ap, true, Option, none, some, List, [], ◌∷◌, inl, inr, get_elem?, ℤ, pos, All,
  All-append, Bool-cases, ◌+ℤ◌, ◌-ℤ◌, fits_int,
}
use zbid.LinkedList.Contents.{remove_nth, All-remove_nth}
use zbid.Server.{CString, CharPtr, Address, User, Server, Auction, write}
use zbid.Server.Print.{print_int, crlf}
use zbid.Server.Monad.{done, stop, null_deref}
use zbid.Server.Monad.Ensures
use zbid.Server.Monad.Ensures.{Ensures, returns, bounded}
use zbid.Users.Find.{find_username, find_user_position}
use zbid.Users.Find.Known.{names, Knows}
use zbid.Auctions.Sound.{IsSound}
use zbid.Auctions.Ids.{id_of}
use zbid.Auctions.Find.{find_auction}
use zbid.Auctions.Close.Settle.{strcat-Ensures}
use zbid.Auctions.Watch.{insert_name, watch_reply, watch_found, watch_auction, leave_auction}
use zbid.Invariant.{IsValid, Keeps}
use zbid.Invariant.Lookup.{Found, find_auction-done, client_user-done, Knows-self}
use zbid.Invariant.Update.{Keeps-trans, store-Keeps, sent-Keeps, OnlySends, OnlySends-Keeps}

-- The auction with other watchers.
abbrev pub watched : Auction → ℤ → List CharPtr → Auction
watched a n ws = record a { number_of_watchers = n; watchers = ws }

watched-IsSound :
    (ns : List CharPtr) (a : Auction) (n : ℤ) (ws : List CharPtr)
    → IsSound ns a
    → All (Knows ns) ws
    → IsSound ns (watched a n ws)
watched-IsSound ns a n ws sound known = record {
  created = sound.created;
  led = sound.led;
  watching = known;
  named = sound.named;
}

All-insert_name :
    (ns : List CharPtr) (c : CharPtr) (ws : List CharPtr)
    → Knows ns c
    → All (Knows ns) ws
    → All (Knows ns) (insert_name c ws)
unfolding insert_name
All-insert_name ns none ws known all = all
All-insert_name ns (some w) ws known all = All-append (Knows ns) ws (some w ∷ []) all (known, tt)

pub watch_reply-OnlySends :
    (client_fd : ℤ) (a : Auction) (n : CString) (s : Server)
    → a.name ≡ some n
    → Ensures (λ _ t. OnlySends s t) (watch_reply client_fd a s)
unfolding watch_reply
watch_reply-OnlySends client_fd a n s named = rw named (
    Ensures.bind (strcat-Ensures [] n.text s) λ b t e. rw e (
      Ensures.bind (strcat-Ensures b crlf s) λ b t e. rw e (
        Ensures.bind (strcat-Ensures b (print_int a.bin_price) s)
          λ b t e. rw e (returns (_, refl)))))

watch_found-Keeps :
    (client_fd : ℤ) (i : ℕ) (p : Address) (a : Auction) (s : Server)
    → IsValid s
    → find_username client_fd s.users ≡ some i
    → s.heap p ≡ some a
    → IsSound (names s.users) a
    → Ensures (λ _ t. Keeps s t) (watch_found client_fd p s)
unfolding watch_found
watch_found-Keeps client_fd i p a s v found here sound =
    let (u, e, at, _) = client_user-done client_fd s i found in
    let n = a.number_of_watchers +ℤ pos 1 in
    let a' = watched a n (insert_name u.username a.watchers) in
    let sound' = watched-IsSound (names s.users) a n _ sound (
      All-insert_name (names s.users) u.username a.watchers (Knows-self s.users i u at v.named)
        sound.watching) in
    let kept = store-Keeps p a' s v sound' (ap id_of here) in
    let t = record s { heap = write s.heap p a' } in
    elim (Bool-cases (fits_int n)) [
      | inl fits ↦
          rw (here, fits, e)
            (Ensures.mono (watch_reply-OnlySends client_fd a sound.named.0 t sound.named.1)
              λ _ r sent. Keeps-trans kept (OnlySends-Keeps t r kept.valid sent))
      | inr big ↦ rw (here, big) (bounded tt)
    ]

-- Watching an auction, by a client that is logged in, dereferences no NULL pointer and waits for no
-- semaphore, and where it returns, the invariant holds and no balance has moved.
pub watch_auction-Keeps :
    (client_fd auction_id : ℤ) (i : ℕ) (s : Server)
    → IsValid s
    → find_username client_fd s.users ≡ some i
    → Ensures (λ _ t. Keeps s t) (watch_auction client_fd auction_id s)
unfolding watch_auction
watch_auction-Keeps client_fd auction_id i s v found =
    go (find_auction-done auction_id s.auctions s v.listed)
  where
    go :
        ((r : Option Address) × (find_auction auction_id s.auctions s ≡ done r s)
          × Found s auction_id s.auctions r)
        → Ensures (λ _ t. Keeps s t) (watch_auction client_fd auction_id s)
    go (none, e, _) = rw e (returns (sent-Keeps s _ v))
    go (some p, e, (a, here, _, sound, _)) =
        rw e (watch_found-Keeps client_fd i p a s v found here sound)

module _ (client_fd auction_id : ℤ) (i : ℕ) (u : User) (s : Server) (v : IsValid s)
    (found : find_username client_fd s.users ≡ some i) (at : get_elem? s.users i ≡ some u) where
  -- Leaving an auction that the client watches keeps the invariant, reads no NULL pointer and moves
  -- no balance.
  pub leave_auction-Keeps :
      ((p : Address) (a : Auction)
        → s.heap p ≡ some a
        → a.id ≡ auction_id
        → Knows a.watchers u.username)
      → Ensures (λ _ t. Keeps s t) (leave_auction client_fd auction_id s)
  unfolding leave_auction
  leave_auction-Keeps watches = go (find_auction-done auction_id s.auctions s v.listed)
    where
      leave_some :
          (p : Address) (a : Auction) (j : ℕ)
          → find_auction auction_id s.auctions s ≡ done (some p) s
          → s.heap p ≡ some a
          → IsSound (names s.users) a
          → find_user_position u.username a.watchers ≡ some (some j)
          → Ensures (λ _ t. Keeps s t) (leave_auction client_fd auction_id s)
      leave_some p a j e here sound watching =
          let n = a.number_of_watchers -ℤ pos 1 in
          let sound' =
            watched-IsSound (names s.users) a n (remove_nth a.watchers j) sound
              (All-remove_nth (Knows (names s.users)) a.watchers j sound.watching) in
          let kept =
            store-Keeps p (watched a n (remove_nth a.watchers j)) s v sound' (ap id_of here) in
          elim (Bool-cases (fits_int n)) [
            | inl fits ↦
                rw (found, at, e, here, fits, watching)
                  (returns (Keeps-trans kept (sent-Keeps _ _ kept.valid)))
            | inr big ↦ rw (found, at, e, here, big) (bounded tt)
          ]

      go :
          ((r : Option Address) × (find_auction auction_id s.auctions s ≡ done r s)
            × Found s auction_id s.auctions r)
          → Ensures (λ _ t. Keeps s t) (leave_auction client_fd auction_id s)
      go (none, e, _) = rw (found, at, e) (returns (sent-Keeps s _ v))
      go (some p, e, (a, here, same, sound, _)) =
          let (j, watching) = watches p a here same in leave_some p a j e here sound watching

  -- When a logged-in client leaves an auction that nobody with its name watches, in a valid state
  -- and with a number of watchers that can be counted down, the walk of `removeByIndex` to the index
  -- -1 reads through NULL.
  pub leave_auction-crash :
      (p : Address) (a : Auction)
      → find_auction auction_id s.auctions s ≡ done (some p) s
      → s.heap p ≡ some a
      → fits_int (a.number_of_watchers -ℤ pos 1) ≡ true
      → find_user_position u.username a.watchers ≡ some none
      → leave_auction client_fd auction_id s ≡ stop null_deref
  unfolding leave_auction
  leave_auction-crash p a e here fits absent = rw (found, at, e, here, fits, absent) refl
