-- ===== src/Invariant/Lookup.antt =====
-- The searches of src/helpers.c in a valid state.
use zbid.Base.{
  ℕ, zero, suc, ◌≡◌, refl, true, false, Option, none, some, List, [], ◌∷◌, arith, inl, inr,
  get_elem?, ℤ, eq_ℤ, eq_ℤ_sound, eq_ℤ_refl, str_eq, str_eq_refl, Bool-cases, All,
}
use zbid.Server.{CharPtr, Address, User, Server, Auction}
use zbid.Server.Monad.{done, strcmp}
use zbid.Users.Find.{find_user_position, find_username, client_user, shift}
use zbid.Users.Find.Known.{names, Knows}
use zbid.Auctions.Sound.{IsSound}
use zbid.Auctions.Find.{find_auction, find_auction_position}
use zbid.Invariant.{Listed, IsNonNull}

-- A name stays known behind one more user that has a name.
pub Knows-cons : (c w : CharPtr) (ns : List CharPtr) → IsNonNull w → Knows ns c → Knows (w ∷ ns) c
unfolding find_user_position strcmp
Knows-cons none w [] nw (i, found) = cc
Knows-cons none w (m ∷ ns) nw (i, found) = cc
Knows-cons (some x) w ns (n, e) (i, found) = elim (Bool-cases (str_eq x.text n.text)) [
  | inl hit ↦ (0, rw (e, hit) refl)
  | inr miss ↦ (suc i, rw (e, miss, found) refl)
]

-- No search finds a NULL.
pub not-Knows-none : (ns : List CharPtr) → ¬ Knows ns none
unfolding find_user_position strcmp
not-Knows-none [] (i, found) = cc
not-Knows-none (n ∷ ns) (i, found) = cc

pub Knows-IsNonNull : (ns : List CharPtr) (c : CharPtr) → Knows ns c → IsNonNull c
Knows-IsNonNull ns none known = absurd (not-Knows-none ns known)
Knows-IsNonNull ns (some n) known = (n, refl)

-- A user's own name is found.
pub Knows-self :
    (us : List User) (i : ℕ) (u : User)
    → get_elem? us i ≡ some u
    → All IsNonNull (names us)
    → Knows (names us) u.username
unfolding find_user_position strcmp
Knows-self [] i u at named = cc
Knows-self (w ∷ us) zero u at ((n, e), named) = (0, grind (arith, str_eq_refl n.text))
Knows-self (w ∷ us) (suc i) u at (nw, named) =
    Knows-cons u.username w.username (names us) nw (Knows-self us i u at named)

pub find_username-at :
    (fd : ℤ) (us : List User) (i : ℕ)
    → find_username fd us ≡ some i
    → (u : User) × (get_elem? us i ≡ some u) × (u.fd ≡ fd)
unfolding find_username
find_username-at fd [] i found = cc
find_username-at fd (u ∷ us) i found = elim (Bool-cases (eq_ℤ u.fd fd)) [
  | inl hit ↦
      let first : some 0 ≡ some i = (rw hit at found) in (u, ground arith, eq_ℤ_sound u.fd fd hit)
  | inr miss ↦ later i (rw miss at found) (find_username-at fd us)
]
  where
    later :
        (i : ℕ)
        → shift (find_username fd us) ≡ some i
        → ((j : ℕ)
            → find_username fd us ≡ some j
            → (v : User) × (get_elem? us j ≡ some v) × (v.fd ≡ fd))
        → (v : User) × (get_elem? (u ∷ us) i ≡ some v) × (v.fd ≡ fd)
    later zero e ih = ground arith
    later (suc j) e ih = ih j (ground arith)

pub client_user-done :
    (fd : ℤ) (s : Server) (i : ℕ)
    → find_username fd s.users ≡ some i
    → (u : User) × (client_user fd s ≡ done u s) × (get_elem? s.users i ≡ some u) × (u.fd ≡ fd)
unfolding client_user
client_user-done fd s i found =
    let (u, at, same) = find_username-at fd s.users i found in (u, rw (found, at) refl, at, same)

-- The auction that a search by id returned.
abbrev pub Found : Server → ℤ → List Address → Option Address → Type 0
Found s id ps none = All (λ p. (a : Auction) × (s.heap p ≡ some a) × (eq_ℤ a.id id ≡ false)) ps
Found s id ps (some p) =
    (a : Auction) × (s.heap p ≡ some a)
    × (a.id ≡ id)
    × IsSound (names s.users) a
    × ((i : ℕ) × (get_elem? ps i ≡ some p))

pub find_auction-done :
    (id : ℤ) (ps : List Address) (s : Server)
    → All (Listed s.heap (names s.users)) ps
    → (r : Option Address) × (find_auction id ps s ≡ done r s) × Found s id ps r
unfolding find_auction
find_auction-done id [] s listed = (none, refl, tt)
find_auction-done id (p ∷ ps) s ((a, at, sound), listed) = elim (Bool-cases (eq_ℤ a.id id)) [
  | inl hit ↦ (some p, rw (at, hit) refl, (a, at, eq_ℤ_sound a.id id hit, sound, (0, refl)))
  | inr miss ↦ later miss (find_auction-done id ps s listed)
]
  where
    later :
        eq_ℤ a.id id ≡ false
        → ((r : Option Address) × (find_auction id ps s ≡ done r s) × Found s id ps r)
        → (r : Option Address) × (find_auction id (p ∷ ps) s ≡ done r s) × Found s id (p ∷ ps) r
    later miss (none, e, no_more) = (none, rw (at, miss) e, ((a, at, miss), no_more))
    later miss (some q, e, (b, b_at, same, b_sound, (i, i_at))) =
        (some q, rw (at, miss) e, (b, b_at, same, b_sound, (suc i, i_at)))

-- The index of a listed auction is found.
pub find_auction_position-done :
    (id : ℤ) (ps : List Address) (s : Server) (i : ℕ) (p : Address) (a : Auction)
    → All (Listed s.heap (names s.users)) ps
    → get_elem? ps i ≡ some p
    → s.heap p ≡ some a
    → a.id ≡ id
    → (j : ℕ) × (find_auction_position id ps s ≡ done (some j) s)
unfolding find_auction_position
find_auction_position-done id [] s i p a listed at here same = cc
find_auction_position-done id (q ∷ ps) s zero p a listed at here same =
    let first : q ≡ p = (ground arith) in
    let hit : eq_ℤ id a.id ≡ true = (rw same (eq_ℤ_refl id)) in (0, rw (first, here, hit) refl)
find_auction_position-done id (q ∷ ps) s (suc i) p a ((b, b_at, sound), listed) at here same =
    let (j, found) = find_auction_position-done id ps s i p a listed at here same in
    elim (Bool-cases (eq_ℤ id b.id)) [
      | inl hit ↦ (0, rw (b_at, hit) refl)
      | inr miss ↦ (suc j, rw (b_at, miss, found) refl)
    ]
