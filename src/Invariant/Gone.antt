-- ===== src/Invariant/Gone.antt =====
-- The removal of an auction that has left the list.
use zbid.Base.{
  ◌≡◌, refl, ◌∙◌, subst, false, some, none, List, [], ◌∷◌, ℕ, zero, suc, ℤ, eq_ℤ, eq_ℤ_sym, All,
  All-get_elem?, get_elem?,
}
use mathlib.Core.Option.{some-injective}
use zbid.LinkedList.Contents.{remove_nth, All-remove_nth}
use zbid.Server.{CharPtr, Address, Auction, Server}
use zbid.Server.Monad.{done, stop, null_deref}
use zbid.Auctions.Ids.{ids, NoTwice, ids-remove_nth}
use zbid.Auctions.Find.{find_auction_position, find_auction_index, remove_auction}
use zbid.Invariant.{Listed}

-- An id that no listed auction has.
find_auction_position-none :
    (s : Server) (ns : List CharPtr) (id : ℤ) (ps : List Address)
    → All (Listed s.heap ns) ps
    → All (λ y. eq_ℤ id y ≡ false) (ids s.heap ps)
    → find_auction_position id ps s ≡ done none s
unfolding find_auction_position
find_auction_position-none s ns id [] listed others = refl
find_auction_position-none s ns id (q ∷ ps) ((b, there, _), listed) (other, others) =
    let miss : eq_ℤ id b.id ≡ false = (rw there at other) in
    rw (there, miss, find_auction_position-none s ns id ps listed others) refl

-- The others do not have the id of the one that is taken out.
NoTwice-others :
    (xs : List ℤ) (i : ℕ) (x : ℤ)
    → NoTwice xs
    → get_elem? xs i ≡ some x
    → All (λ y. eq_ℤ x y ≡ false) (remove_nth xs i)
NoTwice-others [] i x distinct at = cc
NoTwice-others (y ∷ xs) zero x (others, distinct) at =
    subst (λ z. All (λ w. eq_ℤ z w ≡ false) xs) (some-injective y x at) others
NoTwice-others (y ∷ xs) (suc i) x (others, distinct) at = (
  eq_ℤ_sym x y ∙ All-get_elem? (λ w. eq_ℤ y w ≡ false) xs i at others,
  NoTwice-others xs i x distinct at,
)

get_elem?-ids :
    (s : Server) (ps : List Address) (i : ℕ) (p : Address) (a : Auction)
    → get_elem? ps i ≡ some p
    → s.heap p ≡ some a
    → get_elem? (ids s.heap ps) i ≡ some a.id
get_elem?-ids s [] i p a at here = cc
get_elem?-ids s (q ∷ ps) zero p a at here =
    let same : q ≡ p = some-injective q p at in rw (same, here) refl
get_elem?-ids s (q ∷ ps) (suc i) p a at here = get_elem?-ids s ps i p a at here

-- An auction that has left the list cannot be taken out once more.
pub remove_auction-gone :
    (s : Server) (ns : List CharPtr) (ps : List Address) (i : ℕ) (p : Address) (a : Auction)
    → All (Listed s.heap ns) ps
    → NoTwice (ids s.heap ps)
    → get_elem? ps i ≡ some p
    → s.heap p ≡ some a
    → remove_auction p (record s { auctions = remove_nth ps i }) ≡ stop null_deref
unfolding remove_auction find_auction_index
remove_auction-gone s ns ps i p a listed distinct at here =
    let gone = record s { auctions = remove_nth ps i } in
    let others : All (λ y. eq_ℤ a.id y ≡ false) (ids s.heap (remove_nth ps i)) =
      rw (ids-remove_nth s.heap ps i)
        (NoTwice-others (ids s.heap ps) i a.id distinct (get_elem?-ids s ps i p a at here)) in
    let missing =
      find_auction_position-none gone ns a.id (remove_nth ps i)
        (All-remove_nth (Listed s.heap ns) ps i listed) others in
    rw (here, missing) refl
