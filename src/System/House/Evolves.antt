-- ===== src/System/House/Evolves.antt =====
-- What can happen to auctions and balances from one event of the server to the next.
use zbid.Base.{
  ◌≡◌, refl, sym, subst, ◌⊎◌, Bool-cases, inl, inr, true, false, Option, none, some, List, [], ◌∷◌,
  ◌++◌, ℕ, zero, suc, get_elem?, set, ℤ, pos, eq_ℤ, eq_ℤ_sound, ltb_ℤ, ◌-ℤ◌,
}
use mathlib.Core.Option.{some-injective}
use zbid.LinkedList.Contents.{remove_nth}
use zbid.Server.{Auction}
use zbid.Auctions.Bid.{same_pointer}
use zbid.Auctions.Bid.Outcome.{watches, buys}
use zbid.Auctions.Bid.Leading.{leading}
use zbid.Ticker.Walk.{later}
use zbid.System.House.{Accounts, settled, behind, find_lot, holds}
use zbid.System.House.Commands.{Command}

-- An auction that goes on: the bid and its leader stay, or the bid is higher; the time stays, or is
-- one tick less; the item, the price and the creator stay.
pub record GoesOn (a b : Auction) : Type 0 where
  pub same_id : b.id ≡ a.id
  pub same_name : b.name ≡ a.name
  pub same_price : b.bin_price ≡ a.bin_price
  pub same_flag : b.bin_flag ≡ a.bin_flag
  pub same_creator : b.creator ≡ a.creator
  pub bidding :
      ((b.bid ≡ a.bid) × (b.current_winner ≡ a.current_winner)) ⊎ (ltb_ℤ a.bid b.bid ≡ true)
  pub time : (b.duration ≡ a.duration) ⊎ (b.duration ≡ a.duration -ℤ pos 1)

-- The auction ends as `b`: by a tick after which it has no time left, or by the bid of a watcher who
-- is not its creator, above its price.
abbrev pub Ends : Command → Auction → Auction → Type 0
Ends Command.strikes a b = (b ≡ later a) × (b.duration ≡ pos 0)
Ends (Command.bids (some w) id amount) a b =
    (b ≡ leading a w amount)
    × (a.id ≡ id)
    × (buys a amount ≡ true)
    × (watches w a.watchers ≡ true)
    × (same_pointer a.creator (some w) ≡ false)
Ends _ a b = ⊥

-- An auction that is offered: nobody leads or watches, and it has time.
abbrev pub IsOffered : Command → Auction → Type 0
IsOffered (Command.offers block creator (some item) duration price) b =
    (b.creator ≡ creator)
    × (b.name ≡ some item)
    × (b.duration ≡ duration)
    × (b.bin_price ≡ price)
    × (ltb_ℤ duration (pos 1) ≡ false)
    × (ltb_ℤ price (pos 0) ≡ false)
    × (b.bid ≡ pos 0)
    × (b.current_winner ≡ none)
    × (b.watchers ≡ [])
IsOffered _ b = ⊥

-- A name that no account has.
abbrev pub IsOpened : Command → Accounts → Accounts → Type 0
IsOpened (Command.opens w) x y = (holds w x ≡ false) × (y ≡ x ++ (w, pos 0) ∷ [])
IsOpened _ x y = ⊥

-- By a command, the accounts come from `x` to `y`, and the auctions from one list to another, in
-- the same order: each goes on, up to one that ends, for which its leader pays its creator and
-- behind which none changes; or one stands newly behind all.
pub data Evolves (c : Command) (x y : Accounts) : List Auction → List Auction → Type 0 where
  last : (y ≡ x) ⊎ IsOpened c x y → Evolves c x y [] []
  offered : {b : Auction} → y ≡ x → IsOffered c b → Evolves c x y [] (b ∷ [])
  goes_on :
      {a b : Auction} {ps qs : List Auction}
      → GoesOn a b
      → Evolves c x y ps qs
      → Evolves c x y (a ∷ ps) (b ∷ qs)
  ends :
      {a : Auction} {rest : List Auction} (b : Auction)
      → Ends c a b
      → y ≡ settled b x
      → Evolves c x y (a ∷ rest) rest

pub GoesOn-refl : (a : Auction) → GoesOn a a
GoesOn-refl a = record {
  same_id = refl;
  same_name = refl;
  same_price = refl;
  same_flag = refl;
  same_creator = refl;
  bidding = inl (refl, refl);
  time = inl refl;
}

module _ (c : Command) (x : Accounts) where
  pub stays : (xs : List Auction) → Evolves c x x xs xs
  stays [] = last (inl refl)
  stays (a ∷ xs) = goes_on (GoesOn-refl a) (stays xs)

  pub set-Evolves :
      (xs : List Auction) (k : ℕ) (a b : Auction)
      → get_elem? xs k ≡ some a
      → GoesOn a b
      → Evolves c x x xs (set xs k b)
  set-Evolves [] k a b at on = cc
  set-Evolves (z ∷ xs) zero a b at on =
      goes_on (subst (λ r. GoesOn r b) (sym (some-injective z a at)) on) (stays xs)
  set-Evolves (z ∷ xs) (suc k) a b at on = goes_on (GoesOn-refl z) (set-Evolves xs k a b at on)

  pub remove-Evolves :
      (xs : List Auction) (k : ℕ) (a b : Auction)
      → get_elem? xs k ≡ some a
      → Ends c a b
      → Evolves c x (settled b x) xs (remove_nth xs k)
  remove-Evolves [] k a b at over = cc
  remove-Evolves (z ∷ xs) zero a b at over =
      ends b (subst (λ r. Ends c r b) (sym (some-injective z a at)) over) refl
  remove-Evolves (z ∷ xs) (suc k) a b at over =
      goes_on (GoesOn-refl z) (remove-Evolves xs k a b at over)

  pub offer-Evolves :
      (xs : List Auction) (b : Auction) → IsOffered c b → Evolves c x x xs (xs ++ b ∷ [])
  offer-Evolves [] b new = offered refl new
  offer-Evolves (z ∷ xs) b new = goes_on (GoesOn-refl z) (offer-Evolves xs b new)

  pub open-Evolves : (y : Accounts) (xs : List Auction) → IsOpened c x y → Evolves c x y xs xs
  open-Evolves y [] opened = last (inr opened)
  open-Evolves y (z ∷ xs) opened = goes_on (GoesOn-refl z) (open-Evolves y xs opened)

pub find_lot-at :
    (id : ℤ) (xs : List Auction) (k : ℕ) (a : Auction)
    → find_lot id xs ≡ some (k, a)
    → (get_elem? xs k ≡ some a) × (a.id ≡ id)
find_lot-at id [] k a found = cc
find_lot-at id (z ∷ xs) k a found = elim (Bool-cases (eq_ℤ z.id id)) [
  | inl hit ↦ first (eq_ℤ_sound z.id id hit) k a (some-injective _ _ (rw hit at found))
  | inr miss ↦ later_one (find_lot id xs) k a (rw miss at found) (find_lot-at id xs)
]
  where
    first :
        z.id ≡ id
        → (j : ℕ) (b : Auction) → ◌≡◌ {A = ℕ × Auction} (0, z) (j, b)
        → (get_elem? (z ∷ xs) j ≡ some b) × (b.id ≡ id)
    first same j b e =
        subst (λ r. (get_elem? (z ∷ xs) r.0 ≡ some r.1) × (r.1.id ≡ id)) e (refl, same)

    later_one :
        (r : Option (ℕ × Auction)) (j : ℕ) (b : Auction)
        → behind r ≡ some (j, b)
        → ((i : ℕ) (d : Auction) → r ≡ some (i, d) → (get_elem? xs i ≡ some d) × (d.id ≡ id))
        → (get_elem? (z ∷ xs) j ≡ some b) × (b.id ≡ id)
    later_one none j b e ih = cc
    later_one (some (i, d)) j b e ih =
        subst (λ r. (get_elem? (z ∷ xs) r.0 ≡ some r.1) × (r.1.id ≡ id)) (some-injective _ _ e)
          (ih i d refl)
