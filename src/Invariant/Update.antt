-- ===== src/Invariant/Update.antt =====
-- What the writes of the handlers do to the invariant.
use zbid.Base.{
  ℕ, ◌≡◌, refl, sym, ◌∙◌, subst, Bool, true, false, Option, none, some, List, [], ◌∷◌, ◌++◌, arith,
  inl, inr, get_elem?, ℤ, pos, int_laws, All, All-map, ◌==◌, Bool-cases,
}
use zbid.LinkedList.Contents.{All-remove_nth}
use zbid.Server.{CharPtr, Address, Heap, User, Server, Auction, write}
use zbid.Server.Monad.{strcmp}
use zbid.Server.Protocol.{Message}
use zbid.Server.Monad.Ensures.{Ensures}
use zbid.Users.Find.{find_user_position, match_or}
use zbid.Users.Find.Known.{names, Knows}
use zbid.Auctions.Sound.{IsSound, IsLed, Readable, Holdings}
use zbid.Auctions.Ids.{id_of, ids, ids-write, ids-remove_nth, IsNumbered-remove_nth}
use zbid.Auctions.Find.{remove_auction}
use zbid.Auctions.Close.Paid.{Paid}
use zbid.Invariant.{Listed, IsNonNull, IsValid, IsValidAt, Keeps, KeepsAt}
use zbid.Invariant.Lookup.{find_auction_position-done}

pub Keeps-refl : {m : ℕ} (s : Server) → IsValidAt m s → KeepsAt m s s
Keeps-refl s v = record { valid = v; money = refl; mutex = refl }

pub Keeps-trans : {m : ℕ} {s t r : Server} → KeepsAt m s t → KeepsAt m t r → KeepsAt m s r
Keeps-trans k l = record { valid = l.valid; money = l.money ∙ k.money; mutex = l.mutex ∙ k.mutex }

-- Handing over a message keeps everything.
pub sent-Keeps :
    {m : ℕ} (s : Server) (ms : List Message) → IsValidAt m s → KeepsAt m s (record s { sent = ms })
sent-Keeps s ms v = record {
  valid = record {
    listed = v.listed;
    named = v.named;
    secured = v.secured;
    held = v.held;
    users_free = v.users_free;
    numbered = v.numbered;
    ids_free = v.ids_free;
  };
  money = refl;
  mutex = refl;
}

-- All but the messages stays.
abbrev pub OnlySends : Server → Server → Type 0
OnlySends s t = (ms : List Message) × (t ≡ record s { sent = ms })

pub OnlySends-Keeps : {m : ℕ} (s t : Server) → IsValidAt m s → OnlySends s t → KeepsAt m s t
OnlySends-Keeps {m} s t v (ms, e) = subst (KeepsAt m s) (sym e) (sent-Keeps s ms v)

-- What was written is read.
pub write_self : (h : Heap) (p : Address) (a : Auction) → write h p a p ≡ some a
unfolding write
write_self h p a = ground arith

-- An auction with a name is written.
pub Readable-write :
    (h : Heap) (p : Address) (a : Auction)
    → IsNonNull a.name
    → (q : Address) → Readable h q
    → Readable (write h p a) q
unfolding write
Readable-write h p a named q (b, here, b_named) = elim (Bool-cases (q == p)) [
  | inl hit ↦ (a, rw hit refl, named)
  | inr miss ↦ (b, rw miss here, b_named)
]

pub Holdings-write :
    (h : Heap) (p : Address) (a : Auction) (us : List User)
    → IsNonNull a.name
    → All (Holdings h) us
    → All (Holdings (write h p a)) us
Holdings-write h p a us named = All-map (Holdings h) (Holdings (write h p a)) us λ u (owned, won). (
  All-map (Readable h) (Readable (write h p a)) u.auctions_owned (Readable-write h p a named) owned,
  All-map (Readable h) (Readable (write h p a)) u.auctions_won (Readable-write h p a named) won,
)

-- A sound auction is written.
pub Listed-write :
    (h : Heap) (ns : List CharPtr) (ps : List Address) (p : Address) (a : Auction)
    → IsSound ns a
    → All (Listed h ns) ps
    → All (Listed (write h p a) ns) ps
unfolding write
Listed-write h ns [] p a sound listed = tt
Listed-write h ns (q ∷ ps) p a sound ((b, b_at, b_sound), listed) = (
  elim (Bool-cases (q == p)) [
    | inl hit ↦ (a, rw hit refl, sound)
    | inr miss ↦ (b, rw miss b_at, b_sound)
  ],
  Listed-write h ns ps p a sound listed,
)

pub store-Keeps :
    (p : Address) (a : Auction) (s : Server)
    → IsValid s
    → IsSound (names s.users) a
    → id_of (s.heap p) ≡ a.id
    → Keeps s (record s { heap = write s.heap p a })
store-Keeps p a s v sound same = record {
  valid = record {
    listed = Listed-write s.heap (names s.users) s.auctions p a sound v.listed;
    named = v.named;
    secured = v.secured;
    held = Holdings-write s.heap p a s.users sound.named v.held;
    users_free = v.users_free;
    numbered = rw (ids-write s.heap s.auctions p a same) v.numbered;
    ids_free = v.ids_free;
  };
  money = refl;
  mutex = refl;
}

-- A listed auction is removed from the list.
pub remove_auction-Keeps :
    (p : Address) (a : Auction) (i : ℕ) (s : Server)
    → IsValid s
    → s.heap p ≡ some a
    → get_elem? s.auctions i ≡ some p
    → Ensures (λ _ t. Keeps s t) (remove_auction p s)
unfolding remove_auction
remove_auction-Keeps p a i s v here at =
    let (j, found) = find_auction_position-done a.id s.auctions s i p a v.listed at here refl in
    rw (here, found)
      (Ensures.returns (record {
        valid = record {
          listed = All-remove_nth (Listed s.heap (names s.users)) s.auctions j v.listed;
          named = v.named;
          secured = v.secured;
          held = v.held;
          users_free = v.users_free;
          numbered =
              rw (ids-remove_nth s.heap s.auctions j)
                (IsNumbered-remove_nth s.auction_id (ids s.heap s.auctions) j v.numbered);
          ids_free = v.ids_free;
        };
        money = refl;
        mutex = refl;
      }))

-- The payments of `closeAuction`.
pub Paid-Keeps : (s t : Server) → Paid (pos 0) s t → IsValid s → Keeps s t
Paid-Keeps s t p v = record {
  valid = record {
    listed = rw (p.frame.same_heap, p.frame.same_auctions, p.frame.same_names) v.listed;
    named = rw p.frame.same_names v.named;
    secured = rw p.frame.same_passwords v.secured;
    held = p.frame.held v.held;
    users_free = p.frame.same_users_mutex ∙ v.users_free;
    numbered = rw (p.frame.same_heap, p.frame.same_auctions, p.frame.same_id) v.numbered;
    ids_free = p.frame.same_id_mutex ∙ v.ids_free;
  };
  money = rw p.money (omega int_laws);
  mutex = p.frame.same_auctions_mutex;
}

match_or_mono :
    (o : Option Bool) (r r' : Option (Option ℕ)) (i : ℕ)
    → ((j : ℕ) → r ≡ some (some j) → r' ≡ some (some j))
    → match_or o r ≡ some (some i)
    → match_or o r' ≡ some (some i)
match_or_mono none r r' i keep e = cc
match_or_mono (some true) r r' i keep e = e
match_or_mono (some false) none r' i keep e = cc
match_or_mono (some false) (some none) r' i keep e = cc
match_or_mono (some false) (some (some j)) r' i keep e = rw (keep j refl) e

find_user_position-append :
    (c : CharPtr) (ns ms : List CharPtr) (i : ℕ)
    → find_user_position c ns ≡ some (some i)
    → find_user_position c (ns ++ ms) ≡ some (some i)
unfolding find_user_position
find_user_position-append c [] ms i found = cc
find_user_position-append c (n ∷ ns) ms i found =
    match_or_mono (strcmp c n) (find_user_position c ns) _ i (find_user_position-append c ns ms)
      found

-- A name that is known stays known when users are added behind.
Knows-append : (ms ns : List CharPtr) (c : CharPtr) → Knows ns c → Knows (ns ++ ms) c
Knows-append ms ns c (i, found) = (i, find_user_position-append c ns ms i found)

IsLed-append :
    (ms ns : List CharPtr) (w : CharPtr) (bid : ℤ) → IsLed ns w bid → IsLed (ns ++ ms) w bid
IsLed-append ms ns none bid led = led
IsLed-append ms ns (some w) bid led = Knows-append ms ns (some w) led

IsSound-append : (ms ns : List CharPtr) (a : Auction) → IsSound ns a → IsSound (ns ++ ms) a
IsSound-append ms ns a sound =
    let (c, made, known) = sound.created in
    record {
      created = (c, made, Knows-append ms ns (some c) known);
      led = IsLed-append ms ns a.current_winner a.bid sound.led;
      watching =
          All-map (Knows ns) (Knows (ns ++ ms)) a.watchers (Knows-append ms ns) sound.watching;
      named = sound.named;
    }

pub Listed-append :
    (ms : List CharPtr) (h : Heap) (ns : List CharPtr) (ps : List Address)
    → All (Listed h ns) ps
    → All (Listed h (ns ++ ms)) ps
Listed-append ms h ns ps listed =
    All-map (Listed h ns) (Listed h (ns ++ ms)) ps
      (λ p (a, at, sound). (a, at, IsSound-append ms ns a sound)) listed
