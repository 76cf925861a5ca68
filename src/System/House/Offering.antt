-- ===== src/System/House/Offering.antt =====
-- `createAuction` of src/helpers.c does what the offer to the house does.
use zbid.Base.{
  ◌≡◌, refl, ap, sym, ◌∙◌, Bool-cases, inl, inr, ◌==◌, ◌||◌, none, some, List, [], ◌∷◌, ◌++◌, arith,
  ℤ, pos, eq_ℤ, ltb_ℤ, fits_int, ◌+ℤ◌, str_eq, All,
}
use zbid.Server.{CString, CharPtr, Address, Heap, User, Auction, Server, write}
use zbid.Server.Monad.{strcmp}
use zbid.Server.Monad.Ensures.{Ensures, returns, bounded}
use zbid.Users.Find.Known.{names}
use zbid.Auctions.Create.{claim, new_auction, create_auction}
use zbid.Invariant.{Listed, IsValid}
use zbid.Invariant.Update.{write_self}
use zbid.System.House.{house, lot_or, lots_of, accounts_of, offer}
use zbid.System.House.Lots.{lots_of-append, write-elsewhere}

accounts_of-claim :
    (fd : ℤ) (p : Address) (c : CharPtr) (us : List User)
    → accounts_of (claim fd p c us).0 ≡ accounts_of us
unfolding claim
accounts_of-claim fd p c [] = refl
accounts_of-claim fd p c (u ∷ us) = elim (Bool-cases (eq_ℤ u.fd fd)) [
  | inl mine ↦
      rw mine (ap (λ r. (u.username, u.balance) ∷ r) (accounts_of-claim fd p u.username us))
  | inr other ↦ rw other (ap (λ r. (u.username, u.balance) ∷ r) (accounts_of-claim fd p c us))
]

-- An auction at an address that is not in use is none of those that are listed.
lots_of-fresh :
    (h : Heap) (ns : List CharPtr) (p : Address) (b : Auction) (ps : List Address)
    → All (Listed h ns) ps
    → h p ≡ none
    → lots_of (write h p b) ps ≡ lots_of h ps
lots_of-fresh h ns p b [] listed fresh = refl
lots_of-fresh h ns p b (q ∷ ps) ((a, there, _), listed) fresh = elim (Bool-cases (q == p)) [
  | inl hit ↦ let e : q ≡ p = (ground arith) in absurd (some_none (sym there ∙ ap h e ∙ fresh))
  | inr miss ↦
      rw (write-elsewhere h p q b miss) (ap (lot_or (h q)) (lots_of-fresh h ns p b ps listed fresh))
]
  where
    some_none : some a ≡ none → ⊥
    some_none e = cc

-- A request in a valid state, at an address that is not in use, reads no NULL pointer and waits for
-- no semaphore; where it returns, the auctions on offer, the last id and the balances are what the
-- offer to the house leaves.
pub create_auction-house :
    (p : Address) (block : Auction) (client_fd : ℤ) (n : CString) (duration price : ℤ) (s : Server)
    → IsValid s
    → s.heap p ≡ none
    → Ensures
        (λ _ t.
          house t
          ≡ offer block (claim client_fd p block.creator s.users).1 n duration price (house s))
        (create_auction p block client_fd (some n) duration price s)
unfolding create_auction strcmp
create_auction-house p block client_fd n duration price s v fresh =
    elim (Bool-cases (str_eq n.text [] || (ltb_ℤ duration (pos 1) || ltb_ℤ price (pos 0)))) [
      | inl refused ↦ rw refused (returns refl)
      | inr accepted ↦ elim (Bool-cases (fits_int (s.auction_id +ℤ pos 1))) [
        | inl fits ↦
            rw (accepted, v.ids_free, fits)
              (returns λ i. record {
                lots = listed i;
                accounts = accounts_of-claim client_fd p block.creator s.users i;
                last_id = s.auction_id +ℤ pos 1;
              })
        | inr big ↦ rw (accepted, v.ids_free, big) (bounded tt)
      ]
    ]
  where
    made : Auction
    made =
        new_auction block (s.auction_id +ℤ pos 1) (some n) duration price
          (claim client_fd p block.creator s.users).1

    listed :
        lots_of (write s.heap p made) (s.auctions ++ p ∷ [])
        ≡ lots_of s.heap s.auctions ++ made ∷ []
    listed =
        lots_of-append (write s.heap p made) s.auctions (p ∷ [])
        ∙ rw
            (
              lots_of-fresh s.heap (names s.users) p made s.auctions v.listed fresh,
              write_self s.heap p made,
            )
            refl
