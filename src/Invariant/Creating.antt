-- ===== src/Invariant/Creating.antt =====
-- `createAuction` of src/helpers.c and the invariant.
use zbid.Base.{
  ℕ, ◌≡◌, refl, ap, false, ◌||◌, Option, none, some, List, [], ◌∷◌, arith, inl, inr, ℤ, pos, All,
  All-append, All-map, Bool-cases, ◌+ℤ◌, fits_int, eq_ℤ, ltb_ℤ, str_eq, str_eq_refl, ◌⊎◌,
}
use zbid.LinkedList.Contents.{insert_at_tail}
use zbid.Server.{CString, CharPtr, Address, Heap, User, Server, Auction, write}
use zbid.Server.Protocol.{Message}
use zbid.Server.Monad.{strcmp}
use zbid.Server.Monad.Ensures.{Ensures, returns, bounded}
use zbid.Users.Find.{find_username, find_user_position, shift}
use zbid.Users.Find.Known.{names, passwords, Knows}
use zbid.Users.Total.{total}
use zbid.Auctions.Sound.{IsSound, Readable, Holdings}
use zbid.Auctions.Ids.{ids, ids-fresh, IsNumbered-append}
use zbid.Auctions.Create.{claim, new_auction, create_auction}
use zbid.Invariant.{Listed, IsNonNull, IsValid, Keeps}
use zbid.Invariant.Lookup.{Knows-IsNonNull, Knows-cons}
use zbid.Invariant.Update.{sent-Keeps, Listed-write, Holdings-write, write_self}

names-claim :
    (fd : ℤ) (p : Address) (c : CharPtr) (us : List User) → names (claim fd p c us).0 ≡ names us
unfolding claim
names-claim fd p c [] = refl
names-claim fd p c (u ∷ us) = elim (Bool-cases (eq_ℤ u.fd fd)) [
  | inl mine ↦ rw mine (ap (λ ns. u.username ∷ ns) (names-claim fd p u.username us))
  | inr other ↦ rw other (ap (λ ns. u.username ∷ ns) (names-claim fd p c us))
]

passwords-claim :
    (fd : ℤ) (p : Address) (c : CharPtr) (us : List User)
    → passwords (claim fd p c us).0 ≡ passwords us
unfolding claim
passwords-claim fd p c [] = refl
passwords-claim fd p c (u ∷ us) = elim (Bool-cases (eq_ℤ u.fd fd)) [
  | inl mine ↦ rw mine (ap (λ ns. u.password ∷ ns) (passwords-claim fd p u.username us))
  | inr other ↦ rw other (ap (λ ns. u.password ∷ ns) (passwords-claim fd p c us))
]

total-claim :
    (fd : ℤ) (p : Address) (c : CharPtr) (us : List User) → total (claim fd p c us).0 ≡ total us
unfolding claim total
total-claim fd p c [] = refl
total-claim fd p c (u ∷ us) = elim (Bool-cases (eq_ℤ u.fd fd)) [
  | inl mine ↦ rw mine (ap (λ t. u.balance +ℤ t) (total-claim fd p u.username us))
  | inr other ↦ rw other (ap (λ t. u.balance +ℤ t) (total-claim fd p c us))
]

Holdings-claim :
    (h : Heap) (fd : ℤ) (p : Address) (c : CharPtr) (us : List User)
    → Readable h p
    → All (Holdings h) us
    → All (Holdings h) (claim fd p c us).0
unfolding claim
Holdings-claim h fd p c [] new held = tt
Holdings-claim h fd p c (u ∷ us) new ((owned, won), held) = elim (Bool-cases (eq_ℤ u.fd fd)) [
  | inl mine ↦ rw mine (
    (All-append (Readable h) u.auctions_owned (p ∷ []) owned (new, tt), won),
    Holdings-claim h fd p u.username us new held,
  )
  | inr other ↦ rw other ((owned, won), Holdings-claim h fd p c us new held)
]

All-Knows-self : (ns : List CharPtr) → All IsNonNull ns → All (Knows ns) ns
unfolding find_user_position strcmp
All-Knows-self [] named = tt
All-Knows-self (c ∷ ns) (nc, named) = (
  (0, grind (arith, str_eq_refl nc.0.text)),
  All-map (Knows ns) (Knows (c ∷ ns)) ns (λ d. Knows-cons d c ns nc) (All-Knows-self ns named),
)

-- The creator is the name of a user, where one has the descriptor.
Knows-claim :
    (ns : List CharPtr) (fd : ℤ) (p : Address) (c : CharPtr) (us : List User)
    → All (Knows ns) (names us)
    → (Knows ns c ⊎ ((i : ℕ) × (find_username fd us ≡ some i)))
    → Knows ns (claim fd p c us).1
unfolding claim find_username
Knows-claim ns fd p c [] known (inl k) = k
Knows-claim ns fd p c [] known (inr (i, e)) = cc
Knows-claim ns fd p c (u ∷ us) known start = elim (Bool-cases (eq_ℤ u.fd fd)) [
  | inl mine ↦ rw mine (Knows-claim ns fd p u.username us known.1 (inl known.0))
  | inr other ↦ rw other (Knows-claim ns fd p c us known.1 (later other start))
]
  where
    shifted : (r : Option ℕ) (i : ℕ) → shift r ≡ some i → (j : ℕ) × (r ≡ some j)
    shifted none i e = cc
    shifted (some j) i e = (j, refl)

    later :
        eq_ℤ u.fd fd ≡ false
        → (Knows ns c ⊎ ((i : ℕ) × (find_username fd (u ∷ us) ≡ some i)))
        → (Knows ns c ⊎ ((i : ℕ) × (find_username fd us ≡ some i)))
    later other (inl k) = inl k
    later other (inr (i, e)) = inr (shifted (find_username fd us) i (rw other at e))

-- A block in which all fields but one have been assigned holds a sound auction.
new_auction-IsSound :
    (ns : List CharPtr) (block : Auction) (id : ℤ) (n : CString) (duration price : ℤ) (c : CharPtr)
    → Knows ns c
    → IsSound ns (new_auction block id (some n) duration price c)
unfolding new_auction
new_auction-IsSound ns block id n duration price c known =
    let (m, e) = Knows-IsNonNull ns c known in
    record { created = (m, e, rw e at known); led = refl; watching = tt; named = (n, refl) }

-- The state after all writes of an accepted request.
created-Keeps :
    (p : Address) (block : Auction) (client_fd : ℤ) (n : CString) (duration price : ℤ) (i : ℕ)
    (s : Server)
    → IsValid s
    → find_username client_fd s.users ≡ some i
    → s.heap p ≡ none
    → (ms : List Message)
    → let id : ℤ = s.auction_id +ℤ pos 1 in
      let (us, creator) = claim client_fd p block.creator s.users in
      Keeps s (record s {
        users = us;
        auctions = insert_at_tail s.auctions p;
        heap = write s.heap p (new_auction block id (some n) duration price creator);
        auction_id = id;
        sent = ms;
      })
unfolding new_auction ◌+ℤ◌
created-Keeps p block client_fd n duration price i s v found fresh ms =
    let id : ℤ = s.auction_id +ℤ pos 1 in
    let ns = names s.users in
    let creator = (claim client_fd p block.creator s.users).1 in
    let a = new_auction block id (some n) duration price creator in
    let known =
      Knows-claim ns client_fd p block.creator s.users (All-Knows-self ns v.named)
        (inr (i, found)) in
    let sound = new_auction-IsSound ns block id n duration price creator known in
    record {
      valid = record {
        listed = rw (names-claim client_fd p block.creator s.users) (
            All-append (Listed (write s.heap p a) ns) s.auctions (p ∷ [])
              (Listed-write s.heap ns s.auctions p a sound v.listed)
              ((a, write_self s.heap p a, sound), tt));
        named = rw (names-claim client_fd p block.creator s.users) v.named;
        secured = rw (passwords-claim client_fd p block.creator s.users) v.secured;
        held =
            Holdings-claim (write s.heap p a) client_fd p block.creator s.users
              (a, write_self s.heap p a, sound.named)
              (Holdings-write s.heap p a s.users sound.named v.held);
        users_free = v.users_free;
        numbered =
            rw (ids-fresh s.heap s.auctions p a (live s.auctions v.listed) fresh)
              (IsNumbered-append s.auction_id (ids s.heap s.auctions) v.numbered);
        ids_free = v.ids_free;
      };
      money = total-claim client_fd p block.creator s.users;
      mutex = refl;
    }
  where
    live :
        (ps : List Address)
        → All (Listed s.heap (names s.users)) ps
        → All (λ q. (b : Auction) × (s.heap q ≡ some b)) ps
    live ps = All-map (Listed s.heap (names s.users)) _ ps λ q (b, here, _). (b, here)

-- Creating an auction, by a client that is logged in and with a name for the item, dereferences no
-- NULL pointer and waits for no semaphore, and where it returns, the invariant holds and no balance
-- has moved, whatever the block held that `malloc` returned, at an address that is not in use.
pub create_auction-Keeps :
    (p : Address) (block : Auction) (client_fd : ℤ) (n : CString) (duration price : ℤ) (i : ℕ)
    (s : Server)
    → IsValid s
    → find_username client_fd s.users ≡ some i
    → s.heap p ≡ none
    → Ensures (λ _ t. Keeps s t) (create_auction p block client_fd (some n) duration price s)
unfolding create_auction strcmp
create_auction-Keeps p block client_fd n duration price i s v found fresh =
    elim (Bool-cases (str_eq n.text [] || (ltb_ℤ duration (pos 1) || ltb_ℤ price (pos 0)))) [
      | inl refused ↦ rw refused (returns (sent-Keeps s _ v))
      | inr accepted ↦ elim (Bool-cases (fits_int (s.auction_id +ℤ pos 1))) [
        | inl fits ↦
            rw (accepted, v.ids_free, fits)
              (returns (
                created-Keeps p block client_fd n duration price i
                  (record s { auction_id_mutex = 1 })
                  (record {
                    listed = v.listed;
                    named = v.named;
                    secured = v.secured;
                    held = v.held;
                    users_free = v.users_free;
                    numbered = v.numbered;
                    ids_free = refl;
                  })
                  found fresh _))
        | inr big ↦ rw (accepted, v.ids_free, big) (bounded tt)
      ]
    ]
