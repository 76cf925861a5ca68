-- ===== src/System/House/Lifetimes.antt =====
-- Every event of the server moves the auctions and the balances as `Evolves` says.
use zbid.Base.{
  ◌≡◌, refl, sym, subst, Bool-cases, inl, inr, none, some, List, [], ◌∷◌, ℕ, get_elem?, ℤ, pos,
  eq_ℤ, eq_ℤ_sound, ltb_ℤ, str_eq, Option-cases,
}
use zbid.Invariant.Watching.{watched}
use zbid.Server.{CString, CharPtr, Auction, Server}
use zbid.Server.Monad.Ensures
use zbid.Server.Monad.Ensures.{Ensures}
use zbid.Auctions.Create.{new_auction}
use zbid.Auctions.Bid.{same_pointer}
use zbid.Auctions.Bid.Outcome.{watches, buys}
use zbid.Auctions.Bid.Leading.{leading}
use zbid.Ticker.Walk.{later}
use zbid.System.{Event, handle, IsAdmissible, Reach}
use zbid.System.House.{House, Accounts, house, find_lot, bid_at, tick_lots, holds}
use zbid.System.House.Commands.{Command, obey, order}
use zbid.System.House.Evolves.{
  GoesOn, Evolves, last, ends, goes_on, stays, set-Evolves, remove-Evolves, offer-Evolves,
  open-Evolves, find_lot-at,
}
use zbid.System.House.Refines.{Reach-Obeys}

tick-Evolves :
    (xs : List Auction) (x : Accounts)
    → Evolves Command.strikes x (tick_lots xs x).1 xs (tick_lots xs x).0
tick-Evolves [] x = last (inl refl)
tick-Evolves (a ∷ xs) x = elim (Bool-cases (eq_ℤ (later a).duration (pos 0))) [
  | inl over ↦ rw over (ends (later a) (refl, eq_ℤ_sound _ _ over) refl)
  | inr time ↦ rw time (
      goes_on
        (record {
          same_id = refl;
          same_name = refl;
          same_price = refl;
          same_flag = refl;
          same_creator = refl;
          bidding = inl (refl, refl);
          time = inr refl;
        })
        (tick-Evolves xs x))
]

bid-Evolves :
    (w : CString) (id amount : ℤ) (k : ℕ) (a : Auction) (h : House)
    → get_elem? h.lots k ≡ some a
    → a.id ≡ id
    → Evolves
        (Command.bids (some w) id amount)
        h.accounts
        (bid_at w amount k a h).accounts
        h.lots
        (bid_at w amount k a h).lots
bid-Evolves w id amount k a h at same = elim (Bool-cases (same_pointer a.creator (some w))) [
  | inl own ↦ rw own (stays _ _ h.lots)
  | inr other ↦ elim (Bool-cases (watches w a.watchers)) [
    | inr stranger ↦ rw (other, stranger) (stays _ _ h.lots)
    | inl watching ↦ elim (Bool-cases (buys a amount)) [
      | inl bought ↦
          rw (other, watching, bought)
            (remove-Evolves (Command.bids (some w) id amount) h.accounts h.lots k a
              (leading a w amount) at (refl, same, bought, watching, other))
      | inr unbought ↦ elim (Bool-cases (ltb_ℤ a.bid amount)) [
        | inl higher ↦
            rw (other, watching, unbought, higher)
              (set-Evolves _ _ h.lots k a (leading a w amount) at (record {
                same_id = refl;
                same_name = refl;
                same_price = refl;
                same_flag = refl;
                same_creator = refl;
                bidding = inr higher;
                time = inl refl;
              }))
        | inr low ↦ rw (other, watching, unbought, low) (stays _ _ h.lots)
      ]
    ]
  ]
]

-- An auction with other watchers goes on.
watched-GoesOn : (a : Auction) (n : ℤ) (ws : List CharPtr) → GoesOn a (watched a n ws)
watched-GoesOn a n ws = record {
  same_id = refl;
  same_name = refl;
  same_price = refl;
  same_flag = refl;
  same_creator = refl;
  bidding = inl (refl, refl);
  time = inl refl;
}

obey-Evolves :
    (c : Command) (h : House) → Evolves c h.accounts (obey c h).accounts h.lots (obey c h).lots
unfolding new_auction
obey-Evolves Command.nothing h = stays _ _ h.lots
obey-Evolves Command.strikes h = tick-Evolves h.lots h.accounts
obey-Evolves (Command.opens w) h = elim (Bool-cases (holds w h.accounts)) [
  | inl known ↦ rw known (stays _ _ h.lots)
  | inr new ↦ rw new (open-Evolves (Command.opens w) h.accounts _ h.lots (new, refl))
]
obey-Evolves (Command.offers block creator none duration price) h = stays _ _ h.lots
obey-Evolves (Command.offers block creator (some item) duration price) h =
    elim (Bool-cases (str_eq item.text [])) [
      | inl unnamed ↦ rw unnamed (stays _ _ h.lots)
      | inr named ↦ elim (Bool-cases (ltb_ℤ duration (pos 1))) [
        | inl short ↦ rw (named, short) (stays _ _ h.lots)
        | inr lasting ↦ elim (Bool-cases (ltb_ℤ price (pos 0))) [
          | inl below ↦ rw (named, lasting, below) (stays _ _ h.lots)
          | inr priced ↦
              rw (named, lasting, priced)
                (offer-Evolves (Command.offers block creator (some item) duration price) h.accounts
                  h.lots _ (refl, refl, refl, refl, lasting, priced, refl, refl, refl))
        ]
      ]
    ]
obey-Evolves (Command.watches w id) h = elim (Option-cases (find_lot id h.lots)) [
  | inl nothing_found ↦ rw nothing_found (stays _ _ h.lots)
  | inr ((k, a), found) ↦
      rw found
        (set-Evolves _ _ h.lots k a _ (find_lot-at id h.lots k a found).0 (watched-GoesOn a _ _))
]
obey-Evolves (Command.leaves w id) h = elim (Option-cases (find_lot id h.lots)) [
  | inl nothing_found ↦ rw nothing_found (stays _ _ h.lots)
  | inr ((k, a), found) ↦
      rw found
        (set-Evolves _ _ h.lots k a _ (find_lot-at id h.lots k a found).0 (watched-GoesOn a _ _))
]
obey-Evolves (Command.bids none id amount) h = stays _ _ h.lots
obey-Evolves (Command.bids (some w) id amount) h = elim (Option-cases (find_lot id h.lots)) [
  | inl nothing_found ↦ rw nothing_found (stays _ _ h.lots)
  | inr ((k, a), found) ↦
      let (at, same) = find_lot-at id h.lots k a found in
      rw found (bid-Evolves w id amount k a h at same)
]

-- Where every LOGIN has a name and a password, and every job is a logged-in client's and has a
-- block for the copy of its message, the fields that its type wants, an auction that the client
-- watches where it leaves one, and an unused address for an auction that it creates: in every state
-- that the server reaches by connections, jobs and ticks, the next of them, where it returns,
-- leaves the auctions in their order. Each keeps its item, price and creator, its bid and leader but
-- for a higher bid, and its time but for one tick; one at most ends, by a tick after which it has no
-- time left or by the bid of a watcher, not its creator, above its price: then its leader pays its
-- creator, and those behind it do not change. At most one is new, behind all others, with a time of
-- a tick or more and nobody leading or watching. No other balance changes; an account may open, at
-- 0, for a name that nobody has. The event reads no NULL pointer and waits for no semaphore; it may
-- stop only at a full buffer or an `int` out of range.
pub Reach-Evolves :
    {s : Server} (e : Event)
    → Reach s
    → IsAdmissible s e
    → Ensures
        (λ _ t.
          Evolves (order s e) (house s).accounts (house t).accounts (house s).lots (house t).lots)
        (handle e s)
Reach-Evolves {s} e r admissible = Ensures.mono (Reach-Obeys e r admissible) λ _ t obeyed.
    subst (λ g. Evolves (order s e) (house s).accounts g.accounts (house s).lots g.lots)
      (sym obeyed) (obey-Evolves (order s e) (house s))
