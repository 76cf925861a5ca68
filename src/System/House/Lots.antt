-- ===== src/System/House/Lots.antt =====
-- The auctions on offer, when one is rewritten or taken out.
use zbid.Base.{
  ◌≡◌, refl, ap, sym, ◌∙◌, subst, Bool-cases, inl, inr, true, false, some, List, [], ◌∷◌, ℕ, zero,
  suc, get_elem?, set, ℤ, eq_ℤ, eq_ℤ_refl, All, ◌==◌, arith,
}
use zbid.Base.{◌++◌, eq_ℤ_sym, length, get_elem?-middle, Option}
use mathlib.Core.Option.{some-injective}
use zbid.LinkedList.Contents.{remove_nth}
use zbid.Server.{CharPtr, Address, Heap, Auction, write}
use zbid.Auctions.Ids.{id_of, ids, NoTwice}
use zbid.Invariant.{Listed}
use zbid.Server.{Server}
use zbid.Server.Monad.{done}
use zbid.Auctions.Find.{find_auction}
use zbid.Auctions.Bid.Outcome.{result, none-some}
use zbid.Base.{none}
use zbid.System.House.{lot_or, lots_of, find_lot}

differ : (x y : ℤ) → x ≡ y → eq_ℤ x y ≡ false → ⊥
differ x y same other = true_false (sym (eq_ℤ_refl x) ∙ ap (eq_ℤ x) same ∙ other)
  where
    true_false : true ≡ false → ⊥
    true_false e = cc

pub write-elsewhere :
    (h : Heap) (p q : Address) (b : Auction) → (q == p) ≡ false → write h p b q ≡ h q
unfolding write
write-elsewhere h p q b other = rw other refl

-- Auctions with other ids lie elsewhere.
pub lots_of-elsewhere :
    (h : Heap) (p : Address) (b : Auction) (ps : List Address)
    → All (λ y. eq_ℤ (id_of (h p)) y ≡ false) (ids h ps)
    → lots_of (write h p b) ps ≡ lots_of h ps
lots_of-elsewhere h p b [] others = refl
lots_of-elsewhere h p b (q ∷ ps) (other, others) = elim (Bool-cases (q == p)) [
  | inl hit ↦ let e : p ≡ q = (ground arith) in absurd (differ _ _ (ap (λ r. id_of (h r)) e) other)
  | inr miss ↦
      rw (write-elsewhere h p q b miss) (ap (lot_or (h q)) (lots_of-elsewhere h p b ps others))
]

id-at :
    (h : Heap) (p : Address) (x : ℤ) (ps : List Address) (k : ℕ)
    → get_elem? ps k ≡ some p
    → All (λ y. eq_ℤ x y ≡ false) (ids h ps)
    → eq_ℤ x (id_of (h p)) ≡ false
id-at h p x [] k at others = cc
id-at h p x (q ∷ ps) zero at (other, others) =
    subst (λ r. eq_ℤ x (id_of (h r)) ≡ false) (some-injective q p at) other
id-at h p x (q ∷ ps) (suc k) at (other, others) = id-at h p x ps k at others

-- The auctions before one and behind it have other ids.
pub others-before :
    (h : Heap) (p : Address) (xs ps : List Address)
    → NoTwice (ids h (xs ++ p ∷ ps))
    → All (λ y. eq_ℤ (id_of (h p)) y ≡ false) (ids h xs)
others-before h p [] ps distinct = tt
others-before h p (x ∷ xs) ps (others, distinct) = (
  eq_ℤ_sym (id_of (h p)) (id_of (h x))
      ∙ id-at h p (id_of (h x)) (xs ++ p ∷ ps) (length xs) (get_elem?-middle xs p ps) others,
  others-before h p xs ps distinct,
)

pub others-behind :
    (h : Heap) (p : Address) (xs ps : List Address)
    → NoTwice (ids h (xs ++ p ∷ ps))
    → All (λ y. eq_ℤ (id_of (h p)) y ≡ false) (ids h ps)
others-behind h p [] ps (others, distinct) = others
others-behind h p (x ∷ xs) ps (_, distinct) = others-behind h p xs ps distinct

lot_or-append :
    (r : Option Auction) (xs ys : List Auction) → lot_or r (xs ++ ys) ≡ lot_or r xs ++ ys
lot_or-append none xs ys = refl
lot_or-append (some a) xs ys = refl

pub lots_of-append :
    (h : Heap) (ps qs : List Address) → lots_of h (ps ++ qs) ≡ lots_of h ps ++ lots_of h qs
lots_of-append h [] qs = refl
lots_of-append h (p ∷ ps) qs =
    ap (lot_or (h p)) (lots_of-append h ps qs) ∙ lot_or-append (h p) (lots_of h ps) (lots_of h qs)

-- A listed auction is rewritten: it is in its place.
pub lots_of-set :
    (h : Heap) (ns : List CharPtr) (p : Address) (b : Auction) (ps : List Address) (k : ℕ)
    → All (Listed h ns) ps
    → NoTwice (ids h ps)
    → get_elem? ps k ≡ some p
    → lots_of (write h p b) ps ≡ set (lots_of h ps) k b
unfolding write
lots_of-set h ns p b [] k listed distinct at = cc
lots_of-set h ns p b (q ∷ ps) zero ((a, there, _), listed) (others, distinct) at =
    let same : q ≡ p = some-injective q p at in
    let others_p : All (λ y. eq_ℤ (id_of (h p)) y ≡ false) (ids h ps) =
      subst (λ r. All (λ y. eq_ℤ (id_of (h r)) y ≡ false) (ids h ps)) same others in
    let hit : (q == p) ≡ true = (ground (arith, same)) in
    rw (hit, there) (ap (λ r. b ∷ r) (lots_of-elsewhere h p b ps others_p))
lots_of-set h ns p b (q ∷ ps) (suc k) ((a, there, _), listed) (others, distinct) at =
    elim (Bool-cases (q == p)) [
      | inl hit ↦
          let e : q ≡ p = (ground arith) in
          absurd (differ _ _ (ap (λ r. id_of (h r)) e) (id-at h p (id_of (h q)) ps k at others))
      | inr miss ↦ rw (miss, there) (ap (λ r. a ∷ r) (lots_of-set h ns p b ps k listed distinct at))
    ]

pub lots_of-remove_nth :
    (h : Heap) (ns : List CharPtr) (ps : List Address) (k : ℕ)
    → All (Listed h ns) ps
    → lots_of h (remove_nth ps k) ≡ remove_nth (lots_of h ps) k
lots_of-remove_nth h ns [] k listed = refl
lots_of-remove_nth h ns (q ∷ ps) zero ((a, there, _), listed) = rw there refl
lots_of-remove_nth h ns (q ∷ ps) (suc k) ((a, there, _), listed) =
    rw there (ap (λ r. a ∷ r) (lots_of-remove_nth h ns ps k listed))

pub remove_nth-set :
    {A : Type 0} (xs : List A) (k : ℕ) (x : A) → remove_nth (set xs k x) k ≡ remove_nth xs k
remove_nth-set [] k x = refl
remove_nth-set (y ∷ xs) zero x = refl
remove_nth-set (y ∷ xs) (suc k) x = ap (λ r. y ∷ r) (remove_nth-set xs k x)

-- The search by id, in the list and in the house.
pub find_lot-none :
    (s : Server) (ns : List CharPtr) (id : ℤ) (ps : List Address)
    → All (Listed s.heap ns) ps
    → find_auction id ps s ≡ done none s
    → find_lot id (lots_of s.heap ps) ≡ none
unfolding find_auction
find_lot-none s ns id [] listed found = refl
find_lot-none s ns id (q ∷ ps) ((b, there, _), listed) found = elim (Bool-cases (eq_ℤ b.id id)) [
  | inl hit ↦ absurd (none-some (result (sym (rw (there, hit) at found))))
  | inr miss ↦ rw (there, miss, find_lot-none s ns id ps listed (rw (there, miss) at found)) refl
]

pub find_lot-some :
    (s : Server) (ns : List CharPtr) (id : ℤ) (ps : List Address) (p : Address) (a : Auction)
    → All (Listed s.heap ns) ps
    → s.heap p ≡ some a
    → find_auction id ps s ≡ done (some p) s
    → (k : ℕ) × (get_elem? ps k ≡ some p) × (find_lot id (lots_of s.heap ps) ≡ some (k, a))
unfolding find_auction
find_lot-some s ns id [] p a listed here found = cc
find_lot-some s ns id (q ∷ ps) p a ((b, there, _), listed) here found =
    elim (Bool-cases (eq_ℤ b.id id)) [
      | inl hit ↦
          let first : q ≡ p = some-injective q p (result (rw (there, hit) at found)) in
          let same : b ≡ a = some-injective b a (sym there ∙ ap s.heap first ∙ here) in
          (0, ap some first, rw (there, hit) (ap (λ c. some (0, c)) same))
      | inr miss ↦
          let (k, at, e) = find_lot-some s ns id ps p a listed here (rw (there, miss) at found) in
          (suc k, at, rw (there, miss, e) refl)
    ]
