-- ===== src/Auctions/Bid/Outcome.antt =====
-- What a bid on an auction comes to, described without the walk over the watchers.
use zbid.Base.{
  ◌≡◌, refl, true, false, ◌&&◌, ◌||◌, Bool, Bool-cases, inl, inr, Option, none, some, List, [], ◌∷◌,
  ℤ, ltb_ℤ, All, str_eq, ◌∙◌, ap, sym, if◌then◌else◌, subst,
}
use mathlib.Core.Option.{some-injective}
use zbid.Server.{CString, CharPtr, Address, User, Auction, Server}
use zbid.Server.Protocol.{MsgType}
use zbid.Server.Monad.{strcmp, Run, done, stop, reply}
use zbid.Users.Find.Known.{names, Knows}
use zbid.Auctions.Bid.{same_pointer, place_bid, bid_as_watcher, bid_found, bid_in, bid_auction}
use zbid.Users.Find.{client_user}
use zbid.Auctions.Sound.{IsSound}
use zbid.Auctions.Find.{find_auction}
use zbid.Invariant.{IsValid}
use zbid.Invariant.Lookup.{Found, find_auction-done, not-Knows-none}

-- Some watcher has the name.
abbrev pub watches : CString → List CharPtr → Bool
watches w [] = false
watches w (none ∷ ws) = watches w ws
watches w (some x ∷ ws) = str_eq x.text w.text || watches w ws

-- The bid is above the price at which the item is sold at once.
abbrev pub buys : Auction → ℤ → Bool
buys a bid = a.bin_flag && ltb_ℤ a.bin_price bid

-- Why a bid is refused, and with which answer.
pub data Refused (w : CString) (bid : ℤ) (a : Auction) : MsgType → Type 0 where
  own_auction : same_pointer a.creator (some w) ≡ true → Refused w bid a MsgType.eandenied
  not_watching :
      same_pointer a.creator (some w) ≡ false
      → watches w a.watchers ≡ false
      → Refused w bid a MsgType.eandenied
  too_low :
      same_pointer a.creator (some w) ≡ false
      → watches w a.watchers ≡ true
      → buys a bid ≡ false
      → ltb_ℤ a.bid bid ≡ false
      → Refused w bid a MsgType.ebidlow

-- When a bid leads without buying.
pub record Leads (w : CString) (bid : ℤ) (a : Auction) : Type 0 where
  pub others : same_pointer a.creator (some w) ≡ false
  pub watching : watches w a.watchers ≡ true
  pub not_bought : buys a bid ≡ false
  pub higher : ltb_ℤ a.bid bid ≡ true

pub bid_as_watcher-watches :
    (client_fd : ℤ) (w : CString) (p : Address) (bid : ℤ) (ns ws : List CharPtr) (s : Server)
    → All (Knows ns) ws
    → bid_as_watcher client_fd (some w) p bid ws s
      ≡ (if watches w ws
            then place_bid client_fd (some w) p bid
            else reply client_fd MsgType.eandenied)
          s
unfolding bid_as_watcher strcmp
bid_as_watcher-watches client_fd w p bid ns [] s known = refl
bid_as_watcher-watches client_fd w p bid ns (none ∷ ws) s (nobody, known) =
    absurd (not-Knows-none ns nobody)
bid_as_watcher-watches client_fd w p bid ns (some x ∷ ws) s (somebody, known) =
    elim (Bool-cases (str_eq x.text w.text)) [
      | inl same ↦ rw same refl
      | inr other ↦ rw other (bid_as_watcher-watches client_fd w p bid ns ws s known)
    ]

bid_in-found :
    (client_fd auction_id bid : ℤ) (ps : List Address) (s : Server) (p : Address) (c : CharPtr)
    → find_auction auction_id ps s ≡ done (some p) s
    → bid_in client_fd c auction_id bid ps s ≡ bid_found client_fd c p bid s
unfolding bid_in find_auction
bid_in-found client_fd auction_id bid [] s p c found = cc
bid_in-found client_fd auction_id bid (q ∷ qs) s p c found = rw found refl

unfoldable found_by : Run (Option Address) → Option Address
found_by (done r s) = r
found_by (stop e) = none

pub result : {r q : Option Address} {s : Server} → done r s ≡ done q s → r ≡ q
unfolding found_by
result e = ap found_by e

pub none-some : {q : Address} → none ≡ some q → ⊥
none-some e = cc

-- What a search in a valid state returns is sound.
pub found-IsSound :
    (auction_id : ℤ) (s : Server) (p : Address) (a : Auction)
    → IsValid s
    → find_auction auction_id s.auctions s ≡ done (some p) s
    → s.heap p ≡ some a
    → IsSound (names s.users) a
found-IsSound auction_id s p a v found at = go (find_auction-done auction_id s.auctions s v.listed)
  where
    go :
        ((r : Option Address) × (find_auction auction_id s.auctions s ≡ done r s)
          × Found s auction_id s.auctions r)
        → IsSound (names s.users) a
    go (none, e, _) = absurd (none-some (result (sym e ∙ found)))
    go (some q, e, (b, b_at, _, sound, _)) =
        let there : q ≡ p = some-injective q p (result (sym e ∙ found)) in
        subst (IsSound (names s.users)) (some-injective b a (sym b_at ∙ ap s.heap there ∙ at)) sound

-- A bid of a client that is logged in, on the auction that has the id.
module _ (client_fd auction_id bid : ℤ) (s : Server) (u : User) (w : CString) (p : Address)
    (a : Auction) (v : IsValid s) (user : client_user client_fd s ≡ done u s)
    (name : u.username ≡ some w) (found : find_auction auction_id s.auctions s ≡ done (some p) s)
    (at : s.heap p ≡ some a) where
  bid_auction-found : bid_auction client_fd auction_id bid s ≡ bid_found client_fd (some w) p bid s
  unfolding bid_auction
  bid_auction-found =
      rw (user, name) (bid_in-found client_fd auction_id bid s.auctions s p (some w) found)

  pub bid_auction-watches :
      same_pointer a.creator (some w) ≡ false
      → bid_auction client_fd auction_id bid s
        ≡ (if watches w a.watchers
              then place_bid client_fd (some w) p bid
              else reply client_fd MsgType.eandenied)
            s
  unfolding bid_found
  bid_auction-watches others =
      bid_auction-found
      ∙ rw (at, others)
          (bid_as_watcher-watches client_fd w p bid (names s.users) a.watchers s
            (found-IsSound auction_id s p a v found at).watching)

  -- In a valid state, the bid of a logged-in client on its own auction, on an auction that it does
  -- not watch, or that is no higher than the last bid and does not buy changes nothing, and exactly
  -- one message is sent: the answer that says why, EANDENIED, EANDENIED or EBIDLOW.
  pub bid_auction-Refused :
      {e : MsgType}
      → Refused w bid a e
      → bid_auction client_fd auction_id bid s ≡ reply client_fd e s
  unfolding bid_found place_bid
  bid_auction-Refused (own_auction own) = bid_auction-found ∙ rw (at, own) refl
  bid_auction-Refused (not_watching others stranger) = bid_auction-watches others ∙ rw stranger refl
  bid_auction-Refused (too_low others watching not_bought low) =
      bid_auction-watches others ∙ rw (watching, at, not_bought, low) refl
