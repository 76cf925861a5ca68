-- ===== src/System/House/Ticking.antt =====
-- One tick of `run_tick` in src/finalsample.c does what the tick of the house does.
use zbid.Base.{
  ◌≡◌, refl, ap, sym, ◌∙◌, Bool-cases, inl, inr, some, List, [], ◌∷◌, ◌++◌, append_assoc, ℕ, length,
  get_elem?, get_elem?-middle, All-get_elem?, pos, eq_ℤ, fits_int, ◌+ℤ◌, ◌-ℤ◌,
}
use zbid.LinkedList.Contents.{remove_nth}
use zbid.Server.{Address, Heap, Auction, Server, write}
use zbid.Server.Monad.Ensures
use zbid.Server.Monad.Ensures.{Ensures, returns, bounded}
use zbid.Users.Find.Known.{names}
use zbid.Auctions.Sound.{IsSound}
use zbid.Auctions.Ids.{id_of, ids, NoTwice}
use zbid.Auctions.Close.{close_auction}
use zbid.Auctions.Close.Settle.{close_auction-Paid}
use zbid.Ticker.{expire, tick_auctions, run_tick}
use zbid.Ticker.Walk.{later}
use zbid.Invariant.{Listed, IsValid}
use zbid.Invariant.Update.{write_self, store-Keeps, Paid-Keeps}
use zbid.Invariant.Removing.{remove_auction-remove_nth}
use zbid.Invariant.Ticking.{timed-IsSound, mutex-IsValid}
use zbid.System.House.{
  House, Accounts, house, lots_of, accounts_of, settled, tick_lots, ticked, strike,
}
use zbid.System.House.Lots.{lots_of-append, lots_of-elsewhere, others-before, others-behind}
use zbid.System.House.Closing.{both, Moves, close_auction-Moves}

-- The closing of an auction, before it leaves the list.
record Closes (a : Auction) (s t : Server) : Type 0 where
  moves : Moves (settled a) s t
  valid : IsValid t

closes :
    (p : Address) (a : Auction) (s : Server)
    → IsValid s
    → s.heap p ≡ some a
    → IsSound (names s.users) a
    → Ensures (λ _ t. Closes a s t) (close_auction p s)
closes p a s v here sound =
    both (close_auction-Moves p a s v.users_free here sound)
      (close_auction-Paid p a s v.users_free here sound)
      λ _ t m paid. record { moves = m; valid = (Paid-Keeps s t paid v).valid }

expire-settled :
    (p : Address) (a : Auction) (k : ℕ) (s : Server)
    → IsValid s
    → s.auctions_mutex ≡ 1
    → s.heap p ≡ some a
    → IsSound (names s.users) a
    → get_elem? s.auctions k ≡ some p
    → Ensures
        (λ _ t. house t ≡ record {
          lots = lots_of s.heap (remove_nth s.auctions k);
          accounts = settled a (accounts_of s.users);
          last_id = s.auction_id;
        })
        (expire p s)
unfolding expire
expire-settled p a k s v free here sound at =
    let locked = record s { auctions_mutex = 0 } in
    rw free (
      Ensures.bind (closes p a locked (mutex-IsValid 0 s v) here sound) λ _ t c.
        let m = c.moves in
        rw (remove_auction-remove_nth t k p a c.valid (rw m.same_auctions at) (rw m.same_heap here))
          (returns λ i. record {
            lots = lots_of (m.same_heap i) (remove_nth (m.same_auctions i) k);
            accounts = m.moved i;
            last_id = m.same_id i;
          }))

remove_nth-middle :
    {A : Type 0} (xs : List A) (x : A) (ys : List A)
    → remove_nth (xs ++ x ∷ ys) (length xs) ≡ xs ++ ys
remove_nth-middle [] x ys = refl
remove_nth-middle (y ∷ xs) x ys = ap (λ zs. y ∷ zs) (remove_nth-middle xs x ys)

-- The walk has written the auction at `p`, with those of `pre` in front and of `ps` behind.
module _ (h : Heap) (pre : List Address) (p : Address) (ps : List Address) (b : Auction)
    (distinct : NoTwice (ids h (pre ++ p ∷ ps))) where
  lots-before : lots_of (write h p b) pre ≡ lots_of h pre
  lots-before = lots_of-elsewhere h p b pre (others-before h p pre ps distinct)

  lots-behind : lots_of (write h p b) ps ≡ lots_of h ps
  lots-behind = lots_of-elsewhere h p b ps (others-behind h p pre ps distinct)

  lots-with : lots_of (write h p b) (pre ++ p ∷ []) ≡ lots_of h pre ++ b ∷ []
  lots-with = lots_of-append (write h p b) pre (p ∷ []) ∙ rw (lots-before, write_self h p b) refl

  lots-removed :
      lots_of (write h p b) (remove_nth (pre ++ p ∷ ps) (length pre))
      ≡ lots_of h pre ++ lots_of h ps
  lots-removed =
      ap (lots_of (write h p b)) (remove_nth-middle pre p ps)
      ∙ lots_of-append (write h p b) pre ps
      ∙ rw (lots-before, lots-behind) refl

ticked-step :
    (front : List Auction) (b : Auction) (after : List Auction × Accounts) (g : House)
    → ticked (front ++ b ∷ []) after g ≡ ticked front (b ∷ after.0, after.1) g
ticked-step front b after g =
    λ i. record g { lots = append_assoc front (b ∷ []) after.0 i; accounts = after.1 }

tick_auctions-ticked :
    (ps : List Address) (s : Server)
    → IsValid s
    → s.auctions_mutex ≡ 1
    → (pre : List Address) → s.auctions ≡ pre ++ ps
    → Ensures
        (λ _ t.
          house t
          ≡ ticked
              (lots_of s.heap pre)
              (tick_lots (lots_of s.heap ps) (accounts_of s.users))
              (house s))
        (tick_auctions ps s)
unfolding tick_auctions
tick_auctions-ticked [] s v free pre e = returns (λ i. record {
  lots = (ap (lots_of s.heap) e ∙ lots_of-append s.heap pre []) i;
  accounts = accounts_of s.users;
  last_id = s.auction_id;
})
tick_auctions-ticked (p ∷ ps) s v free pre e =
    let at : get_elem? s.auctions (length pre) ≡ some p = (rw e (get_elem?-middle pre p ps)) in
    let (a, here, sound) = All-get_elem? (Listed s.heap (names s.users)) s.auctions _ at v.listed in
    let d = a.duration -ℤ pos 1 in
    let b = later a in
    let sound_b = timed-IsSound (names s.users) a d sound in
    let t = record s { heap = write s.heap p b } in
    let valid = (store-Keeps p b s v sound_b (ap id_of here)).valid in
    let distinct : NoTwice (ids s.heap (pre ++ p ∷ ps)) = (rw (← e) v.numbered.1) in
    elim (Bool-cases (fits_int d)) [
      | inl fits ↦ elim (Bool-cases (eq_ℤ d (pos 0))) [
        | inl over ↦
            rw (here, fits, over)
              (Ensures.mono
                (expire-settled p b (length pre) t valid free (write_self s.heap p b) sound_b at)
                λ _ r settles. settles ∙ λ i. record {
                  lots =
                      (ap (λ qs. lots_of t.heap (remove_nth qs (length pre))) e
                          ∙ lots-removed s.heap pre p ps b distinct)
                        i;
                  accounts = settled b (accounts_of s.users);
                  last_id = s.auction_id;
                })
        | inr goes_on ↦
            rw (here, fits, goes_on)
              (Ensures.mono
                (tick_auctions-ticked ps t valid free (pre ++ p ∷ [])
                  (e ∙ sym (append_assoc pre (p ∷ []) ps)))
                λ _ r after.
                  after
                  ∙ (λ i.
                      ticked (lots-with s.heap pre p ps b distinct i)
                        (tick_lots (lots-behind s.heap pre p ps b distinct i) (accounts_of s.users))
                        (house s))
                  ∙ ticked-step (lots_of s.heap pre) b
                      (tick_lots (lots_of s.heap ps) (accounts_of s.users)) (house s))
      ]
      | inr big ↦ rw (here, big) (bounded tt)
    ]

-- A tick in a valid state with the semaphore of the auctions free reads no NULL pointer and waits
-- for no semaphore; where it returns, the auctions on offer and the balances are what the tick of
-- the house leaves.
pub run_tick-house :
    (s : Server)
    → IsValid s
    → s.auctions_mutex ≡ 1
    → Ensures (λ _ t. house t ≡ strike (house s)) (run_tick s)
unfolding run_tick
run_tick-house s v free = elim (Bool-cases (fits_int (s.tick +ℤ pos 1))) [
  | inl fits ↦
      let t = record s { tick = s.tick +ℤ pos 1 } in
      let u : IsValid t = record {
        listed = v.listed;
        named = v.named;
        secured = v.secured;
        held = v.held;
        users_free = v.users_free;
        numbered = v.numbered;
        ids_free = v.ids_free;
      } in
      rw fits (tick_auctions-ticked s.auctions t u free [] refl)
  | inr big ↦ rw big (bounded tt)
]
