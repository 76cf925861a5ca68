-- ===== src/Invariant/Watching/Back.antt =====
-- A client of src/helpers.c that watches an auction and leaves it.
use zbid.Base.{
  Bool, Option, ◌≡◌, refl, sym, ap, ◌∙◌, true, false, Bool-cases, inl, inr, some, none, List, [],
  ◌∷◌, ◌++◌, append_assoc, ℕ, zero, suc, ◌+◌, ◌==◌, leb, length, get_elem?, ℤ, pos, ◌+ℤ◌, ◌-ℤ◌,
  fits_int, str_eq, str_eq_refl, arith, int_laws, All, eq_ℤ, eq_ℤ_refl,
}
use mathlib.Core.Option.{some-injective}
use zbid.LinkedList.Contents.{remove_nth}
use zbid.Server.{CString, CharPtr, Address, Heap, Auction, User, Server, write}
use zbid.Server.Protocol.{MsgType, Message}
use zbid.Server.Print.{print_int, crlf}
use zbid.Server.Monad.{done, strcmp, ◌>>◌}
use zbid.Server.Monad.Ensures.{Ensures-run}
use zbid.Server.Monad.Strcat.{strcat-fits}
use zbid.Users.Find.{match_or, find_username, find_user_position, find_user_index, client_user}
use zbid.Users.Find.Known.{names}
use zbid.Auctions.Ids.{ids, NoTwice, id_of}
use zbid.Auctions.Find.{find_auction}
use zbid.Auctions.Watch.{
  insert_name, watch_reply, watch_found, leave_found, watch_auction, leave_auction,
}
use zbid.Auctions.Close.Sold.{prefix-fits}
use zbid.Auctions.Bid.Leading.{answer}
use zbid.Invariant.{Listed, IsValid}
use zbid.Invariant.Update.{write_self}
use zbid.Invariant.Removing.{apart-id}
use zbid.Invariant.Watching.{watched, watch_auction-Keeps}

module _ (s : Server) (ns : List CharPtr) (p : Address) (a : Auction)
    (here : s.heap p ≡ some a) where
  find_auction-at :
      (ps : List Address) (i : ℕ)
      → All (Listed s.heap ns) ps
      → NoTwice (ids s.heap ps)
      → get_elem? ps i ≡ some p
      → find_auction a.id ps s ≡ done (some p) s
  unfolding find_auction
  find_auction-at [] i listed distinct at = cc
  find_auction-at (q ∷ ps) zero listed distinct at =
      rw (some-injective q p at, here, eq_ℤ_refl a.id) refl
  find_auction-at (q ∷ ps) (suc i) ((b, there, _), listed) (others, distinct) at =
      let other : eq_ℤ b.id a.id ≡ false =
        apart-id s ns p a here b.id q ps i (ap id_of there) others at in
      rw (there, other, find_auction-at ps i listed distinct at) refl

match_or-missed :
    (b : Bool) (r : Option (Option ℕ))
    → match_or (some b) r ≡ some none
    → (b ≡ false) × (r ≡ some none)
match_or-missed true r missed = cc
match_or-missed false none missed = cc
match_or-missed false (some none) missed = (refl, refl)
match_or-missed false (some (some j)) missed = cc

-- A name that stands behind others which are different.
find_user_position-last :
    (w : CString) (ws : List CharPtr)
    → find_user_position (some w) ws ≡ some none
    → find_user_position (some w) (ws ++ some w ∷ []) ≡ some (some (length ws))
unfolding find_user_position strcmp
find_user_position-last w [] absent = rw (str_eq_refl w.text) refl
find_user_position-last w (none ∷ ws) absent = cc
find_user_position-last w (some c ∷ ws) absent =
    let (other, rest) =
      match_or-missed (str_eq w.text c.text) (find_user_position (some w) ws) absent in
    rw (other, find_user_position-last w ws rest) refl

remove_nth-last : {A : Type 0} (xs : List A) (x : A) → remove_nth (xs ++ x ∷ []) (length xs) ≡ xs
remove_nth-last [] x = refl
remove_nth-last (y ∷ xs) x = ap (λ zs. y ∷ zs) (remove_nth-last xs x)

one_more_less : (n : ℤ) → n +ℤ pos 1 -ℤ pos 1 ≡ n
one_more_less n = grind int_laws

write-back : (h : Heap) (p : Address) (a b : Auction) → h p ≡ some a → write (write h p b) p a ≡ h
unfolding write
write-back h p a b here = λ i q. at q i
  where
    at : (q : Address) → write (write h p b) p a q ≡ h q
    at q = elim (Bool-cases (q == p)) [
      | inl hit ↦ let e : q ≡ p = (ground arith) in rw hit (sym here ∙ ap h (sym e))
      | inr miss ↦ rw miss refl
    ]

-- The answer to a new watcher.
abbrev pub welcome : ℤ → CString → Auction → Message
welcome client_fd item a =
    let text = item.text ++ crlf ++ print_int a.bin_price in
    record { fd = client_fd; msg_type = MsgType.anwatch; msg_len = length text + 1; msgbuf = text }

watch_reply-welcome :
    (client_fd : ℤ) (item : CString) (a : Auction) (s : Server)
    → a.name ≡ some item
    → leb (length (item.text ++ crlf ++ print_int a.bin_price) + 1) 1024 ≡ true
    → watch_reply client_fd a s
      ≡ done tt (record s { sent = s.sent ++ welcome client_fd item a ∷ [] })
unfolding watch_reply
watch_reply-welcome client_fd item a s named short =
    let second = prefix-fits (item.text ++ crlf) (print_int a.bin_price) short in
    rw
      (
        named,
        strcat-fits [] item.text s (prefix-fits item.text crlf second),
        strcat-fits item.text crlf s second,
        strcat-fits (item.text ++ crlf) (print_int a.bin_price) s short,
      )
      refl

module _ (client_fd : ℤ) (i k : ℕ) (u : User) (w item : CString) (p : Address) (a : Auction)
    (s : Server) (v : IsValid s) (found : find_username client_fd s.users ≡ some i)
    (at : get_elem? s.users i ≡ some u) (name : u.username ≡ some w)
    (listed : get_elem? s.auctions k ≡ some p) (here : s.heap p ≡ some a)
    (named : a.name ≡ some item) where
  abbrev more : Auction
  more = watched a (a.number_of_watchers +ℤ pos 1) (a.watchers ++ some w ∷ [])

  abbrev watching : Server
  watching = record s { heap = write s.heap p more; sent = s.sent ++ welcome client_fd item a ∷ [] }

  watches :
      fits_int (a.number_of_watchers +ℤ pos 1) ≡ true
      → leb (length (item.text ++ crlf ++ print_int a.bin_price) + 1) 1024 ≡ true
      → watch_auction client_fd a.id s ≡ done tt watching
  unfolding watch_auction watch_found insert_name client_user
  watches fits short =
      rw
        (
          find_auction-at s (names s.users) p a here s.auctions k v.listed v.numbered.1 listed,
          here,
          fits,
          found,
          at,
          name,
        )
        (watch_reply-welcome client_fd item a (record s { heap = write s.heap p more }) named short)

  leaves :
      IsValid watching
      → fits_int a.number_of_watchers ≡ true
      → find_user_position (some w) a.watchers ≡ some none
      → leave_auction client_fd a.id watching
        ≡ done tt (record s {
          sent = s.sent ++ welcome client_fd item a ∷ answer client_fd MsgType.ok ∷ [];
        })
  unfolding leave_auction leave_found find_user_index client_user
  leaves valid counted absent =
      let there = write_self s.heap p more in
      rw
        (
          found,
          at,
          find_auction-at watching (names s.users) p more there s.auctions k valid.listed
              valid.numbered.1 listed,
          there,
          one_more_less a.number_of_watchers,
          counted,
          name,
          find_user_position-last w a.watchers absent,
          remove_nth-last a.watchers (some w),
          write-back s.heap p a more here,
          append_assoc s.sent (welcome client_fd item a ∷ []) (answer client_fd MsgType.ok ∷ []),
        )
        refl

  -- A logged-in client that watches a listed auction and leaves it again, in a valid state: where
  -- its name is not among the watchers, their number and one more are in the range of `int` and the
  -- answer fits in 1024 bytes, it is sent one ANWATCH with the item and the price, then OK, and
  -- everything is as it was.
  pub watch_auction-leave_auction :
      fits_int a.number_of_watchers ≡ true
      → fits_int (a.number_of_watchers +ℤ pos 1) ≡ true
      → leb (length (item.text ++ crlf ++ print_int a.bin_price) + 1) 1024 ≡ true
      → find_user_position (some w) a.watchers ≡ some none
      → (do watch_auction client_fd a.id; leave_auction client_fd a.id) s
        ≡ done tt (record s {
          sent = s.sent ++ welcome client_fd item a ∷ answer client_fd MsgType.ok ∷ [];
        })
  watch_auction-leave_auction counted fits short absent =
      let runs = watches fits short in
      let kept = Ensures-run (watch_auction-Keeps client_fd a.id i s v found) runs in
      rw runs (leaves kept.valid counted absent)
