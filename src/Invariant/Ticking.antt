-- ===== src/Invariant/Ticking.antt =====
-- One tick of `run_tick` in src/finalsample.c and the invariant.
use zbid.Base.{
  length, append_assoc, get_elem?-middle, All-get_elem?, ℕ, suc, ◌≡◌, refl, ap, sym, ◌∙◌, some,
  List, [], ◌∷◌, ◌++◌, inl, inr, get_elem?, ℤ, pos, Bool-cases, ◌+ℤ◌, ◌-ℤ◌, eq_ℤ, fits_int,
}
use zbid.Server.{CharPtr, Address, Server, Auction, write}
use zbid.Server.Monad.Ensures
use zbid.Server.Monad.Ensures.{Ensures, returns, bounded}
use zbid.Users.Find.Known.{names}
use zbid.Auctions.Sound.{IsSound}
use zbid.Auctions.Close.Settle.{close_auction-Paid}
use zbid.Auctions.Ids.{id_of}
use zbid.Ticker.{expire, tick_auctions, run_tick}
use zbid.Invariant.{Listed, IsValid, Keeps}
use zbid.Invariant.Update.{
  write_self, Keeps-refl, Keeps-trans, store-Keeps, remove_auction-Keeps, Paid-Keeps,
}

-- The auction with other time left.
abbrev pub timed : Auction → ℤ → Auction
timed a d = record a { duration = d }

pub timed-IsSound :
    (ns : List CharPtr) (a : Auction) (d : ℤ) → IsSound ns a → IsSound ns (timed a d)
timed-IsSound ns a d sound = record {
  created = sound.created;
  led = sound.led;
  watching = sound.watching;
  named = sound.named;
}

pub mutex-IsValid : (n : ℕ) (s : Server) → IsValid s → IsValid (record s { auctions_mutex = n })
mutex-IsValid n s v = record {
  listed = v.listed;
  named = v.named;
  secured = v.secured;
  held = v.held;
  users_free = v.users_free;
  numbered = v.numbered;
  ids_free = v.ids_free;
}

expire-Keeps :
    (p : Address) (a : Auction) (i : ℕ) (s : Server)
    → IsValid s
    → s.auctions_mutex ≡ 1
    → s.heap p ≡ some a
    → IsSound (names s.users) a
    → get_elem? s.auctions i ≡ some p
    → Ensures (λ _ t. Keeps s t) (expire p s)
unfolding expire
expire-Keeps p a i s v free here sound at =
    let locked = record s { auctions_mutex = 0 } in
    rw free (
      Ensures.bind (close_auction-Paid p a locked v.users_free here sound) λ _ t paid.
        let kept = Paid-Keeps locked t paid (mutex-IsValid 0 s v) in
        Ensures.bind
          (remove_auction-Keeps p a i t kept.valid (rw paid.frame.same_heap here)
            (rw paid.frame.same_auctions at))
          λ _ r removed. returns (record {
            valid = mutex-IsValid (suc r.auctions_mutex) r removed.valid;
            money = removed.money ∙ kept.money;
            mutex = ap suc (removed.mutex ∙ kept.mutex);
          }))

tick_auctions-Keeps :
    (ps : List Address) (s : Server)
    → IsValid s
    → s.auctions_mutex ≡ 1
    → (pre : List Address) → s.auctions ≡ pre ++ ps
    → Ensures (λ _ t. Keeps s t) (tick_auctions ps s)
unfolding tick_auctions
tick_auctions-Keeps [] s v free pre e = returns (Keeps-refl s v)
tick_auctions-Keeps (p ∷ ps) s v free pre e =
    let at : get_elem? s.auctions (length pre) ≡ some p = (rw e (get_elem?-middle pre p ps)) in
    let (a, here, sound) = All-get_elem? (Listed s.heap (names s.users)) s.auctions _ at v.listed in
    let d = a.duration -ℤ pos 1 in
    let kept =
      store-Keeps p (timed a d) s v (timed-IsSound (names s.users) a d sound) (ap id_of here) in
    let t = record s { heap = write s.heap p (timed a d) } in
    elim (Bool-cases (fits_int d)) [
      | inl fits ↦ elim (Bool-cases (eq_ℤ d (pos 0))) [
        | inl over ↦
            rw (here, fits, over)
              (Ensures.mono
                (expire-Keeps p (timed a d) (length pre) t kept.valid free
                  (write_self s.heap p (timed a d)) (timed-IsSound (names s.users) a d sound) at)
                λ _ r. Keeps-trans kept)
        | inr left ↦
            rw (here, fits, left)
              (Ensures.mono
                (tick_auctions-Keeps ps t kept.valid free (pre ++ p ∷ [])
                  (e ∙ sym (append_assoc pre (p ∷ []) ps)))
                λ _ r. Keeps-trans kept)
      ]
      | inr big ↦ rw (here, big) (bounded tt)
    ]

-- A tick dereferences no NULL pointer, waits for no semaphore and frees the one that it takes, and
-- it leaves the invariant and the sum of all balances, also where it closes an auction.
pub run_tick-Keeps :
    (s : Server) → IsValid s → s.auctions_mutex ≡ 1 → Ensures (λ _ t. Keeps s t) (run_tick s)
unfolding run_tick
run_tick-Keeps s v free = elim (Bool-cases (fits_int (s.tick +ℤ pos 1))) [
  | inl fits ↦
      let t = record s { tick = s.tick +ℤ pos 1 } in
      let u : IsValid t = record {
        listed = v.listed;
        named = v.named;
        secured = v.secured;
        held = v.held;
        users_free = v.users_free;
        numbered = v.numbered;
        ids_free = v.ids_free;
      } in
      let kept : Keeps s t = record { valid = u; money = refl; mutex = refl } in
      rw fits
        (Ensures.mono (tick_auctions-Keeps s.auctions t u free [] refl) λ _ r. Keeps-trans kept)
  | inr big ↦ rw big (bounded tt)
]
