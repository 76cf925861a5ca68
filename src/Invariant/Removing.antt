-- ===== src/Invariant/Removing.antt =====
-- The searches by id of src/helpers.c in a valid state, in which no id stands twice.
use zbid.Base.{
  ℕ, zero, suc, sym, ◌∙◌, All-get_elem?, ◌≡◌, refl, ap, subst, false, some, List, [], ◌∷◌, ℤ, eq_ℤ,
  eq_ℤ_refl, eq_ℤ_sym, All, get_elem?,
}
use mathlib.Core.Option.{some-injective}
use zbid.LinkedList.Contents.{remove_nth}
use zbid.Server.{CharPtr, Address, Auction, Server}
use zbid.Server.Monad.{done}
use zbid.Auctions.Ids.{id_of, ids, NoTwice}
use zbid.Auctions.Find.{find_auction_position, find_auction_index, remove_auction}
use zbid.Users.Find.Known.{names}
use zbid.Invariant.{Listed, IsValid, Keeps}
use zbid.Invariant.Update.{remove_auction-Keeps, Paid-Keeps}
use zbid.Invariant.Ticking.{mutex-IsValid}
use zbid.Auctions.Sound.{IsSound}
use zbid.Auctions.Close.Settle.{close_auction-Paid}
use zbid.Ticker.{expire}
use zbid.Server.Monad.Ensures
use zbid.Server.Monad.Ensures.{Ensures, Ensures-done, returns}

module _ (s : Server) (ns : List CharPtr) (p : Address) (a : Auction)
    (here : s.heap p ≡ some a) where
  -- An auction of the list does not have the id of one before it.
  apart :
      (id : ℤ) (ps : List Address) (i : ℕ)
      → All (λ y. eq_ℤ id y ≡ false) (ids s.heap ps)
      → get_elem? ps i ≡ some p
      → eq_ℤ id a.id ≡ false
  apart id [] i others at = cc
  apart id (q ∷ ps) zero (other, others) at =
      let same : s.heap q ≡ some a = (rw (some-injective q p at) here) in rw same at other
  apart id (q ∷ ps) (suc i) (other, others) at = apart id ps i others at

  pub apart-id :
      (id : ℤ) (q : Address) (ps : List Address) (i : ℕ)
      → id_of (s.heap q) ≡ id
      → All (λ y. eq_ℤ (id_of (s.heap q)) y ≡ false) (ids s.heap ps)
      → get_elem? ps i ≡ some p
      → eq_ℤ id a.id ≡ false
  apart-id id q ps i e others at =
      subst (λ z. eq_ℤ z a.id ≡ false) e (apart (id_of (s.heap q)) ps i others at)

  find_auction_position-at :
      (ps : List Address) (i : ℕ)
      → All (Listed s.heap ns) ps
      → NoTwice (ids s.heap ps)
      → get_elem? ps i ≡ some p
      → find_auction_position a.id ps s ≡ done (some i) s
  unfolding find_auction_position
  find_auction_position-at [] i listed distinct at = cc
  find_auction_position-at (q ∷ ps) zero listed distinct at =
      rw (some-injective q p at, here, eq_ℤ_refl a.id) refl
  find_auction_position-at (q ∷ ps) (suc i) ((b, there, _), listed) (others, distinct) at =
      let other : eq_ℤ b.id a.id ≡ false = apart-id b.id q ps i (ap id_of there) others at in
      rw (there, eq_ℤ_sym a.id b.id, other, find_auction_position-at ps i listed distinct at) refl

-- In a valid state, the removal of a listed auction takes away its place in the list and leaves
-- every other auction, in the same order, and all else.
pub remove_auction-remove_nth :
    (s : Server) (i : ℕ) (p : Address) (a : Auction)
    → IsValid s
    → get_elem? s.auctions i ≡ some p
    → s.heap p ≡ some a
    → remove_auction p s ≡ done tt (record s { auctions = remove_nth s.auctions i })
unfolding remove_auction find_auction_index
remove_auction-remove_nth s i p a v at here =
    rw
      (
        here,
        find_auction_position-at s (names s.users) p a here s.auctions i v.listed v.numbered.1 at,
      )
      refl

-- What the end of an auction leaves: it alone has left the list, and no auction has changed.
pub record Expired (i : ℕ) (s t : Server) : Type 0 where
  pub removed : t.auctions ≡ remove_nth s.auctions i
  pub same_heap : t.heap ≡ s.heap
  pub kept : Keeps s t

-- In a valid state in which the semaphore of the auctions is free, the end of a listed auction reads
-- no NULL pointer and waits for no semaphore; where it returns, that auction and no other has left
-- the list, every auction is what it was, the state is valid, and no balance is lost. It may stop
-- only at an `int` out of range or a full buffer.
expire-Expired :
    (s : Server) (i : ℕ) (p : Address) (a : Auction)
    → IsValid s
    → s.auctions_mutex ≡ 1
    → get_elem? s.auctions i ≡ some p
    → s.heap p ≡ some a
    → Ensures (λ _ t. Expired i s t) (expire p s)
unfolding expire
expire-Expired s i p a v free at here =
    let locked = record s { auctions_mutex = 0 } in
    let (b, there, sound_b) =
      All-get_elem? (Listed s.heap (names s.users)) s.auctions i at v.listed in
    let same_auction : b ≡ a = some-injective b a (sym there ∙ here) in
    let sound = subst (IsSound (names s.users)) same_auction sound_b in
    rw free (
      Ensures.bind (close_auction-Paid p a locked v.users_free here sound) λ _ t paid.
        let kept = Paid-Keeps locked t paid (mutex-IsValid 0 s v) in
        let same = paid.frame.same_auctions in
        let at_t : get_elem? t.auctions i ≡ some p = (rw same at) in
        let here_t : t.heap p ≡ some a = (rw paid.frame.same_heap here) in
        let removes = remove_auction-remove_nth t i p a kept.valid at_t here_t in
        let r = record t { auctions = remove_nth t.auctions i } in
        let left : Keeps t r = Ensures-done (
          subst (Ensures (λ _ q. Keeps t q)) removes
            (remove_auction-Keeps p a i t kept.valid here_t at_t)) in
        rw removes (
          returns (record {
            removed = ap (λ ps. remove_nth ps i) same;
            same_heap = paid.frame.same_heap;
            kept = record {
              valid = mutex-IsValid (suc r.auctions_mutex) r left.valid;
              money = left.money ∙ kept.money;
              mutex = ap suc (left.mutex ∙ kept.mutex);
            };
          })))
