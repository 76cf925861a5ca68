-- ===== src/System/House/Orders.antt =====
-- What the handlers that take a field of a message do to the house, as `processJob` of
-- src/finalsample.c calls them.
use zbid.Base.{
  ◌≡◌, refl, ap, Bool-cases, inl, inr, none, some, List, [], ◌∷◌, ℕ, zero, suc, arith, get_elem?, ℤ,
  eq_ℤ, fits_int, Text, if◌then◌else◌,
}
use zbid.Server.{Address, CharPtr, User, Auction, Server}
use zbid.Server.Monad.{
  M, Run, Semaphore, users_mutex, auctions_mutex, auction_id_mutex, value, set_value,
}
use zbid.Server.Monad.Ensures
use zbid.Server.Monad.Ensures.{Ensures, returns, bounded}
use zbid.Users.Find.{find_username, shift}
use zbid.Users.Find.Known.{names, Knows}
use zbid.Auctions.Create.{claim}
use zbid.Jobs.Text.{atoi, parse_int}
use zbid.Jobs.Process.{Blocks, locked, create_job, watch_job, leave_job, bid_job}
use zbid.Invariant.{IsNonNull, IsValid}
use zbid.Invariant.Lookup.{Knows-IsNonNull, Knows-self}
use zbid.Invariant.Processing.{HasFields, auctions_mutex-IsValid}
use zbid.Invariant.Reporting.{}
use zbid.System.House.{house}
use zbid.System.House.Offering.{create_auction-house}
use zbid.System.House.Watching.{watch_auction-house, leave_auction-house}
use zbid.System.House.Bidding.{bid_auction-house}
use zbid.System.House.Commands.{
  Command, offers, watches, leaves, bids, obey, client_name, creator_of, int_of, create_order,
  bid_order,
}

-- A run does what a command orders.
abbrev pub Obeys : {A : Type 0} → Server → Command → Run A → Type 0
Obeys s c r = Ensures (λ _ t. house t ≡ obey c (house s)) r

client_name-of_found :
    (fd : ℤ) (us : List User) (i : ℕ) (u : User)
    → find_username fd us ≡ some i
    → get_elem? us i ≡ some u
    → client_name fd us ≡ u.username
unfolding find_username
client_name-of_found fd [] i u found at = cc
client_name-of_found fd (x ∷ us) i u found at = elim (Bool-cases (eq_ℤ x.fd fd)) [
  | inl mine ↦ rw mine (first i (rw mine at found) at)
  | inr other ↦ rw other (later i (rw other at found) at (λ j. client_name-of_found fd us j u))
]
  where
    first : (k : ℕ) → some 0 ≡ some k → get_elem? (x ∷ us) k ≡ some u → x.username ≡ u.username
    first zero e f = let same : x ≡ u = (ground (arith, f)) in ap (λ r. r.username) same
    first (suc k) e f = ground (arith, e)

    later :
        (k : ℕ)
        → shift (find_username fd us) ≡ some k
        → get_elem? (x ∷ us) k ≡ some u
        → ((j : ℕ)
            → find_username fd us ≡ some j
            → get_elem? us j ≡ some u
            → client_name fd us ≡ u.username)
        → client_name fd us ≡ u.username
    later zero e f ih = ground (arith, e)
    later (suc k) e f ih = ih k (ground (arith, e)) f

claim-creator_of :
    (fd : ℤ) (p : Address) (c : CharPtr) (us : List User) → (claim fd p c us).1 ≡ creator_of fd c us
unfolding claim
claim-creator_of fd p c [] = refl
claim-creator_of fd p c (u ∷ us) = claim-creator_of fd p (if eq_ℤ u.fd fd then u.username else c) us

-- A semaphore around a handler shows nothing of itself in the house.
pub locked-Obeys :
    (m : Semaphore) (h : M (Unit {0})) (s : Server) (c : Command)
    → value m s ≡ 1
    → Obeys (set_value m 0 s) c (h (set_value m 0 s))
    → Obeys s c (locked m h s)
unfolding locked
locked-Obeys users_mutex h s c free run = rw free (Ensures.bind run λ _ t e. returns e)
locked-Obeys auctions_mutex h s c free run = rw free (Ensures.bind run λ _ t e. returns e)
locked-Obeys auction_id_mutex h s c free run = rw free (Ensures.bind run λ _ t e. returns e)

atoi-int_of :
    (c : CharPtr) (s : Server) → IsNonNull c → Ensures (λ n t. (n ≡ int_of c) × (t ≡ s)) (atoi c s)
unfolding atoi
atoi-int_of c s (t, e) = elim (Bool-cases (fits_int (parse_int t.text))) [
  | inl fits ↦ rw (e, fits) (returns (refl, refl))
  | inr big ↦ rw (e, big) (bounded tt)
]

-- A client that is logged in, in a valid state in which the semaphore of the auctions is free.
module _ (b : Blocks) (client_fd : ℤ) (i : ℕ) (u : User) (s : Server) (v : IsValid s)
    (free : s.auctions_mutex ≡ 1) (found : find_username client_fd s.users ≡ some i)
    (at : get_elem? s.users i ≡ some u) where
  abbrev taken : Server
  taken = record s { auctions_mutex = 0 }

  taken-IsValid : IsValid taken
  taken-IsValid = auctions_mutex-IsValid 0 s v

  name : client_name client_fd s.users ≡ u.username
  name = client_name-of_found client_fd s.users i u found at

  pub create_job-Obeys :
      (text : Text)
      → HasFields 3 b.message text
      → s.heap b.auction ≡ none
      → Obeys s (create_order s b client_fd text) (create_job b client_fd text s)
  unfolding create_job
  create_job-Obeys text (item, (duration, (price, _))) fresh =
      Ensures.bind (atoi-int_of _ s duration) λ d t (d_is, e).
        rw (e, ← d_is)
          (Ensures.bind (atoi-int_of _ s price) λ n t (n_is, e).
            rw (e, ← n_is)
              (let (w, named) = item in
                rw (named, ← claim-creator_of client_fd b.auction b.auction_block.creator s.users)
                  (locked-Obeys auctions_mutex _ s
                    (offers b.auction_block
                      (claim client_fd b.auction b.auction_block.creator s.users).1 (some w) d n)
                    free
                    (create_auction-house b.auction b.auction_block client_fd w d n taken
                      taken-IsValid fresh))))

  pub watch_job-Obeys :
      (text : Text)
      → Obeys s
          (watches (client_name client_fd s.users) (parse_int text))
          (watch_job b client_fd text s)
  unfolding watch_job
  watch_job-Obeys text = Ensures.bind (atoi-int_of _ s (_, refl)) λ id t (id_is, e).
      rw (e, ← id_is, name)
        (locked-Obeys auctions_mutex _ s (watches u.username id) free
          (watch_auction-house client_fd id i u taken taken-IsValid found at))

  pub leave_job-Obeys :
      (text : Text)
      → ((p : Address) (a : Auction)
          → s.heap p ≡ some a
          → a.id ≡ parse_int text
          → Knows a.watchers u.username)
      → Obeys s
          (leaves (client_name client_fd s.users) (parse_int text))
          (leave_job b client_fd text s)
  unfolding leave_job atoi
  leave_job-Obeys text watched = elim (Bool-cases (fits_int (parse_int text))) [
    | inl fits ↦
        rw (fits, name)
          (locked-Obeys auctions_mutex _ s (leaves u.username (parse_int text)) free (
            leave_auction-house client_fd (parse_int text) i u taken taken-IsValid found at
              watched))
    | inr big ↦ rw big (bounded tt)
  ]

  pub bid_job-Obeys :
      (text : Text)
      → HasFields 2 b.message text
      → Obeys s (bid_order s b client_fd text) (bid_job b client_fd text s)
  unfolding bid_job
  bid_job-Obeys text (id_token, (bid_token, _)) =
      Ensures.bind (atoi-int_of _ s id_token) λ id t (id_is, e).
        rw (e, ← id_is)
          (Ensures.bind (atoi-int_of _ s bid_token) λ bid t (bid_is, e).
            rw (e, ← bid_is, name)
              (let (w, called) =
                  Knows-IsNonNull (names s.users) u.username (Knows-self s.users i u at v.named) in
                rw called (
                  locked-Obeys auctions_mutex _ s (bids (some w) id bid) free (
                    bid_auction-house client_fd id bid i u w taken taken-IsValid found at called))))
