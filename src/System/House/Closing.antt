-- ===== src/System/House/Closing.antt =====
-- What `closeAuction` of src/helpers.c does to the balances by user.
use zbid.Base.{
  ◌≡◌, refl, ap, ◌∙◌, some, List, [], ◌∷◌, Bool-cases, inl, inr, ℤ, ◌+ℤ◌, ◌-ℤ◌, fits_int, Text, All,
}
use zbid.Server.{CString, CharPtr, Address, Auction, Server}
use zbid.Server.Print.{print_int, crlf}
use zbid.Server.Monad.{Run}
use zbid.Server.Monad.Ensures
use zbid.Server.Monad.Ensures.{Ensures, returns, bounded}
use zbid.Users.Find.Known.{names, Knows, find_user_struct-names, get_elem?-of_found}
use zbid.Base.{Option-cases}
use zbid.Auctions.Sound.{IsLed, IsSound, Readable}
use zbid.Auctions.Close.{charge_winner, pay_creator, settle_winner, notify_closed, close_auction}
use zbid.Auctions.Close.Paid.{Paid, charge_winner-Paid, pay_creator-Paid}
use zbid.Auctions.Close.Settle.{strcat-Ensures, find_client_fd-done}
use zbid.System.House.{Accounts, accounts_of, pay, charge, credit, settled}
use zbid.System.House.Accounts.{accounts_of-set}

-- What a step does to the users: the balances, and the names and the semaphore that stay.
pub record Moves (change : Accounts → Accounts) (s t : Server) : Type 0 where
  pub moved : accounts_of t.users ≡ change (accounts_of s.users)
  pub same_names : names t.users ≡ names s.users
  pub free : t.users_mutex ≡ 1
  pub same_heap : t.heap ≡ s.heap
  pub same_auctions : t.auctions ≡ s.auctions
  pub same_id : t.auction_id ≡ s.auction_id

-- Both of two guarantees.
pub both :
    {A : Type 0} {P Q R : A → Server → Type 0} {r : Run A}
    → Ensures P r
    → Ensures Q r
    → ((a : A) (s : Server) → P a s → Q a s → R a s)
    → Ensures R r
both (returns p) (returns q) join = returns (join _ _ p q)
both (bounded b) other join = bounded b

charge_winner-moved :
    (w : CString) (p : Address) (bid : ℤ) (s : Server)
    → s.users_mutex ≡ 1
    → Knows (names s.users) (some w)
    → Ensures
        (λ _ t. accounts_of t.users ≡ pay (some w) (λ b. b -ℤ bid) (accounts_of s.users))
        (charge_winner (some w) p bid s)
unfolding charge_winner
charge_winner-moved w p bid s free (i, found) =
    let (u, at) = get_elem?-of_found (some w) s.users i found in
    let by_name = find_user_struct-names (some w) s.users ∙ found in
    elim (Bool-cases (fits_int (u.balance -ℤ bid))) [
      | inl fits ↦
          rw (free, by_name, at, fits)
            (returns (accounts_of-set w s.users i u _ (λ b. b -ℤ bid) by_name at refl refl))
      | inr big ↦ rw (free, by_name, at, big) (bounded tt)
    ]

pay_creator-moved :
    (c : CString) (bid : ℤ) (s : Server)
    → s.users_mutex ≡ 1
    → Knows (names s.users) (some c)
    → Ensures
        (λ _ t. accounts_of t.users ≡ pay (some c) (λ b. b +ℤ bid) (accounts_of s.users))
        (pay_creator (some c) bid s)
unfolding pay_creator
pay_creator-moved c bid s free (i, found) =
    let (u, at) = get_elem?-of_found (some c) s.users i found in
    let by_name = find_user_struct-names (some c) s.users ∙ found in
    elim (Bool-cases (fits_int (u.balance +ℤ bid))) [
      | inl fits ↦
          rw (free, by_name, at, fits)
            (returns (accounts_of-set c s.users i u _ (λ b. b +ℤ bid) by_name at refl refl))
      | inr big ↦ rw (free, by_name, at, big) (bounded tt)
    ]

Moves-trans :
    {f g : Accounts → Accounts} {s t r : Server}
    → Moves f s t
    → Moves g t r
    → Moves (λ x. g (f x)) s r
Moves-trans {g} m n = record {
  moved = n.moved ∙ ap g m.moved;
  same_names = n.same_names ∙ m.same_names;
  free = n.free;
  same_heap = n.same_heap ∙ m.same_heap;
  same_auctions = n.same_auctions ∙ m.same_auctions;
  same_id = n.same_id ∙ m.same_id;
}

Paid-Moves :
    {f : Accounts → Accounts} {change : ℤ} {s t : Server}
    → s.users_mutex ≡ 1
    → accounts_of t.users ≡ f (accounts_of s.users)
    → Paid change s t
    → Moves f s t
Paid-Moves free moved paid = record {
  moved = moved;
  same_names = paid.frame.same_names;
  free = paid.frame.same_users_mutex ∙ free;
  same_heap = paid.frame.same_heap;
  same_auctions = paid.frame.same_auctions;
  same_id = paid.frame.same_id;
}

Moves-refl : (s : Server) → s.users_mutex ≡ 1 → Moves (λ x. x) s s
Moves-refl s free = record {
  moved = refl;
  same_names = refl;
  free = free;
  same_heap = refl;
  same_auctions = refl;
  same_id = refl;
}

notify_closed-Moves :
    (buf : Text) (ws : List CharPtr) (s : Server)
    → s.users_mutex ≡ 1
    → All (Knows (names s.users)) ws
    → Ensures (λ _ t. Moves (λ x. x) s t) (notify_closed buf ws s)
unfolding notify_closed
notify_closed-Moves buf [] s free known = returns (record {
  moved = refl;
  same_names = refl;
  free = free;
  same_heap = refl;
  same_auctions = refl;
  same_id = refl;
})
notify_closed-Moves buf (w ∷ ws) s free known =
    let (fd, e) = find_client_fd-done w s known.0 in
    rw e (
      Ensures.mono (notify_closed-Moves buf ws (record s { sent = _ }) free known.1) λ _ t m.
        record {
          moved = m.moved;
          same_names = m.same_names;
          free = m.free;
          same_heap = m.same_heap;
          same_auctions = m.same_auctions;
          same_id = m.same_id;
        })

charge_winner-Moves :
    (w : CString) (p : Address) (bid : ℤ) (s : Server)
    → s.users_mutex ≡ 1
    → Readable s.heap p
    → Knows (names s.users) (some w)
    → Ensures (λ _ t. Moves (charge (some w) bid) s t) (charge_winner (some w) p bid s)
charge_winner-Moves w p bid s free won known =
    both (charge_winner-moved w p bid s free known) (charge_winner-Paid w p bid s free won known)
      λ _ t moved paid. Paid-Moves free moved paid

pay_creator-Moves :
    (c : CString) (bid : ℤ) (s : Server)
    → s.users_mutex ≡ 1
    → Knows (names s.users) (some c)
    → Ensures (λ _ t. Moves (credit (some c) bid) s t) (pay_creator (some c) bid s)
pay_creator-Moves c bid s free known =
    both (pay_creator-moved c bid s free known) (pay_creator-Paid c bid s free known)
      λ _ t moved paid. Paid-Moves free moved paid

settle_winner-Moves :
    (a : Auction) (p : Address) (buf : Text) (s : Server)
    → s.users_mutex ≡ 1
    → Readable s.heap p
    → IsLed (names s.users) a.current_winner a.bid
    → Ensures (λ _ t. Moves (charge a.current_winner a.bid) s t) (settle_winner a p buf s)
unfolding settle_winner
settle_winner-Moves a p buf s free won led = elim (Option-cases a.current_winner) [
  | inl nobody ↦
      rw (nobody, settle_winner)
        (Ensures.bind (strcat-Ensures buf crlf s) λ b t e.
          rw e (Ensures.mono (strcat-Ensures b crlf s) λ b' t' e'. rw e' (Moves-refl s free)))
  | inr (w, somebody) ↦
      let known : Knows (names s.users) (some w) = (rw somebody at led) in
      rw (somebody, settle_winner)
        (Ensures.bind (strcat-Ensures buf w.text s) λ b t e. rw e (
          Ensures.bind (strcat-Ensures b crlf s) λ b t e. rw e (
            Ensures.bind (strcat-Ensures b (print_int a.bid) s) λ b t e.
              rw e (
                Ensures.bind (charge_winner-Moves w p a.bid s free won known) λ _ t m. returns m))))
]

-- An auction is closed: the winner, if there is one, pays the bid, and the creator is paid.
pub close_auction-Moves :
    (p : Address) (a : Auction) (s : Server)
    → s.users_mutex ≡ 1
    → s.heap p ≡ some a
    → IsSound (names s.users) a
    → Ensures (λ _ t. Moves (settled a) s t) (close_auction p s)
unfolding close_auction
close_auction-Moves p a s free at sound =
    let (c, made, known) = sound.created in
    rw at (
      Ensures.bind (strcat-Ensures (print_int a.id) crlf s) λ buf t e. rw e (
        Ensures.bind (settle_winner-Moves a p buf s free (a, at, sound.named) sound.led)
          λ buf' t charged. rw made (
            Ensures.bind (pay_creator-Moves c a.bid t charged.free (rw charged.same_names known))
              λ _ r paid.
                Ensures.mono
                  (notify_closed-Moves buf' a.watchers r paid.free
                    (rw (paid.same_names, charged.same_names) sound.watching))
                  λ _ q sent. Moves-trans charged (Moves-trans paid sent))))
