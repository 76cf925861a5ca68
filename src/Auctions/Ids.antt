-- ===== src/Auctions/Ids.antt =====
-- The ids of the auctions in `auctionsList`.
use zbid.Base.{
  ℕ, zero, suc, ◌≡◌, refl, ap, sym, ◌∙◌, false, Option, none, some, List, [], ◌∷◌, ◌++◌, inl, inr,
  arith, ◌==◌, Bool-cases, ℤ, pos, ◌≤ℤ◌, ◌+ℤ◌, eq_ℤ, +ℤ_parts, All, All-append, All-map,
}
use zbid.LinkedList.Contents.{remove_nth, All-remove_nth}
use zbid.Server.{Address, Heap, Auction, write}

-- The id of an auction, where there is one.
abbrev pub id_of : Option Auction → ℤ
id_of none = pos 0
id_of (some a) = a.id

abbrev pub ids : Heap → List Address → List ℤ
ids h [] = []
ids h (p ∷ ps) = id_of (h p) ∷ ids h ps

abbrev pub NoTwice : List ℤ → Type 0
NoTwice [] = Unit
NoTwice (x ∷ xs) = All (λ y. eq_ℤ x y ≡ false) xs × NoTwice xs

-- No id is above the counter, and none stands twice.
abbrev pub IsNumbered : ℤ → List ℤ → Type 0
IsNumbered last xs = All (λ x. x ≤ℤ last) xs × NoTwice xs

write-here : (h : Heap) (p : Address) (a : Auction) → write h p a p ≡ some a
unfolding write
write-here h p a = ground arith

write-elsewhere :
    (h : Heap) (p : Address) (a : Auction) (q : Address) → (q == p) ≡ false → write h p a q ≡ h q
unfolding write
write-elsewhere h p a q miss = rw miss refl

-- An auction is written that keeps its id.
pub ids-write :
    (h : Heap) (ps : List Address) (p : Address) (a : Auction)
    → id_of (h p) ≡ a.id
    → ids (write h p a) ps ≡ ids h ps
unfolding write
ids-write h [] p a same = refl
ids-write h (q ∷ ps) p a same = elim (Bool-cases (q == p)) [
  | inl hit ↦
      let e : q ≡ p = (ground arith) in
      rw (hit, ids-write h ps p a same)
        (ap (λ i. i ∷ ids h ps) (sym same ∙ ap (λ r. id_of (h r)) (sym e)))
  | inr miss ↦ rw (miss, ids-write h ps p a same) refl
]

-- A new auction is written at an address that none of the listed has.
pub ids-fresh :
    (h : Heap) (ps : List Address) (p : Address) (a : Auction)
    → All (λ q. (b : Auction) × (h q ≡ some b)) ps
    → h p ≡ none
    → ids (write h p a) (ps ++ p ∷ []) ≡ ids h ps ++ a.id ∷ []
ids-fresh h [] p a live fresh = ap (λ o. id_of o ∷ []) (write-here h p a)
ids-fresh h (q ∷ ps) p a ((b, here), live) fresh = elim (Bool-cases (q == p)) [
  | inl hit ↦ let e : q ≡ p = (ground arith) in absurd (some_none (sym here ∙ ap h e ∙ fresh))
  | inr miss ↦ rw (write-elsewhere h p a q miss, ids-fresh h ps p a live fresh) refl
]
  where
    some_none : some b ≡ none → ⊥
    some_none e = cc

NoTwice-append :
    (xs : List ℤ) (y : ℤ) → NoTwice xs → All (λ x. eq_ℤ x y ≡ false) xs → NoTwice (xs ++ y ∷ [])
NoTwice-append [] y distinct apart = (tt, tt)
NoTwice-append (x ∷ xs) y (others, distinct) (ax, apart) = (
  All-append (λ z. eq_ℤ x z ≡ false) xs (y ∷ []) others (ax, tt),
  NoTwice-append xs y distinct apart,
)

above : (last x : ℤ) → x ≤ℤ last → eq_ℤ x (last +ℤ pos 1) ≡ false
unfolding eq_ℤ
above last x le = ground (arith, le, +ℤ_parts last (pos 1))

pub IsNumbered-append :
    (last : ℤ) (xs : List ℤ)
    → IsNumbered last xs
    → IsNumbered (last +ℤ pos 1) (xs ++ (last +ℤ pos 1) ∷ [])
IsNumbered-append last xs (bounded, distinct) = (
  All-append (λ x. x ≤ℤ last +ℤ pos 1) xs (_ ∷ [])
      (All-map (λ x. x ≤ℤ last) (λ x. x ≤ℤ last +ℤ pos 1) xs
        (λ x le. omega (arith, le, +ℤ_parts last (pos 1))) bounded)
      (omega arith, tt),
  NoTwice-append xs (last +ℤ pos 1) distinct
      (All-map (λ x. x ≤ℤ last) (λ x. eq_ℤ x (last +ℤ pos 1) ≡ false) xs (above last) bounded),
)

pub ids-remove_nth :
    (h : Heap) (ps : List Address) (i : ℕ) → ids h (remove_nth ps i) ≡ remove_nth (ids h ps) i
ids-remove_nth h [] i = refl
ids-remove_nth h (p ∷ ps) zero = refl
ids-remove_nth h (p ∷ ps) (suc i) = ap (λ xs. id_of (h p) ∷ xs) (ids-remove_nth h ps i)

pub IsNumbered-remove_nth :
    (last : ℤ) (xs : List ℤ) (i : ℕ) → IsNumbered last xs → IsNumbered last (remove_nth xs i)
IsNumbered-remove_nth last [] i n = n
IsNumbered-remove_nth last (x ∷ xs) zero ((_, bounded), (_, distinct)) = (bounded, distinct)
IsNumbered-remove_nth last (x ∷ xs) (suc i) ((bx, bounded), (apart, distinct)) =
    let (b, d) = IsNumbered-remove_nth last xs i (bounded, distinct) in
    ((bx, b), (All-remove_nth (λ y. eq_ℤ x y ≡ false) xs i apart, d))
