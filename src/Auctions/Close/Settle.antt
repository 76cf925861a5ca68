-- ===== src/Auctions/Close/Settle.antt =====
-- The money that `closeAuction` of src/helpers.c moves.
use zbid.Base.{
  ◌≡◌, refl, ◌∙◌, subst, some, List, [], ◌∷◌, ◌++◌, inl, inr, ℤ, pos, ◌+ℤ◌, ◌-ℤ◌, int_laws,
  Bool-cases, Option-cases, Text, All, length, leb, ◌+◌,
}
use zbid.Server.{CharPtr, Address, Server, Auction}
use zbid.Server.Print.{print_int, crlf}
use zbid.Server.Monad.{strcat, done}
use zbid.Server.Monad.Ensures
use zbid.Server.Monad.Ensures.{Ensures, returns, bounded}
use zbid.Users.Find.{find_client_fd}
use zbid.Users.Find.Known.{names, Knows, find_user_struct-names, get_elem?-of_found}
use zbid.Auctions.Sound.{IsLed, IsSound, Readable}
use zbid.Auctions.Close.{settle_winner, notify_closed, close_auction}
use zbid.Auctions.Close.Paid.{
  Paid, Paid-cancel, Paid-trans, Paid-sent, charge_winner-Paid, pay_creator-Paid,
}

-- `strcat` changes no state.
pub strcat-Ensures : (buf str : Text) (s : Server) → Ensures (λ _ t. t ≡ s) (strcat buf str s)
unfolding strcat
strcat-Ensures buf str s = elim (Bool-cases (leb (length (buf ++ str) + 1) 1024)) [
  | inl fits ↦ rw fits (returns refl)
  | inr big ↦ rw big (bounded tt)
]

-- The descriptor of a known user is read, and nothing changes.
pub find_client_fd-done :
    (c : CharPtr) (s : Server)
    → Knows (names s.users) c
    → (fd : ℤ) × (find_client_fd c s ≡ done fd s)
unfolding find_client_fd
find_client_fd-done c s (i, found) =
    let (u, at) = get_elem?-of_found c s.users i found in
    (u.fd, rw (find_user_struct-names, found, at) refl)

zero_sum : pos 0 +ℤ pos 0 ≡ pos 0
unfolding ◌+ℤ◌
zero_sum = refl

notify_closed-Paid :
    (buf : Text) (ws : List CharPtr) (s : Server)
    → All (Knows (names s.users)) ws
    → Ensures (λ _ t. Paid (pos 0) s t) (notify_closed buf ws s)
unfolding notify_closed
notify_closed-Paid buf [] s known = returns (Paid-sent s s.sent)
notify_closed-Paid buf (w ∷ ws) s known =
    let (fd, e) = find_client_fd-done w s known.0 in
    rw e (
      Ensures.mono (notify_closed-Paid buf ws (record s { sent = _ }) known.1)
        λ _ t p. Paid-cancel (Paid-sent s _) p zero_sum)

-- What the winner pays: the bid, or nothing where nobody has bid.
settle_winner-Paid :
    (a : Auction) (p : Address) (buf : Text) (s : Server)
    → s.users_mutex ≡ 1
    → Readable s.heap p
    → IsLed (names s.users) a.current_winner a.bid
    → Ensures (λ _ t. Paid (pos 0 -ℤ a.bid) s t) (settle_winner a p buf s)
unfolding settle_winner
settle_winner-Paid a p buf s free won led = elim (Option-cases a.current_winner) [
  | inl nobody ↦
      let unsold : a.bid ≡ pos 0 = (rw nobody at led) in
      rw (nobody, unsold, settle_winner)
        (Ensures.bind (strcat-Ensures buf crlf s) λ b t e. rw e (
          Ensures.mono (strcat-Ensures b crlf s)
            λ b' t' e'. rw e' (subst (λ c. Paid c s s) (omega int_laws) (Paid-sent s s.sent))))
  | inr (w, somebody) ↦
      let known : Knows (names s.users) (some w) = (rw somebody at led) in
      rw (somebody, settle_winner)
        (Ensures.bind (strcat-Ensures buf w.text s) λ b t e. rw e (
          Ensures.bind (strcat-Ensures b crlf s) λ b t e. rw e (
            Ensures.bind (strcat-Ensures b (print_int a.bid) s) λ b t e. rw e (
              Ensures.bind (charge_winner-Paid w p a.bid s free won known)
                λ _ t paid. returns paid))))
]

-- The whole of `closeAuction`: the balances keep their sum.
pub close_auction-Paid :
    (p : Address) (a : Auction) (s : Server)
    → s.users_mutex ≡ 1
    → s.heap p ≡ some a
    → IsSound (names s.users) a
    → Ensures (λ _ t. Paid (pos 0) s t) (close_auction p s)
unfolding close_auction
close_auction-Paid p a s free at sound =
    let (c, made, known) = sound.created in
    rw at (
      Ensures.bind (strcat-Ensures (print_int a.id) crlf s) λ buf t e. rw e (
        Ensures.bind (settle_winner-Paid a p buf s free (a, at, sound.named) sound.led)
          λ buf' t charged. rw made (
            Ensures.bind
              (pay_creator-Paid c a.bid t (charged.frame.same_users_mutex ∙ free)
                (rw charged.frame.same_names known))
              λ _ r paid.
                Ensures.mono
                  (notify_closed-Paid buf' a.watchers r
                    (rw (paid.frame.same_names, charged.frame.same_names) sound.watching))
                  λ _ q sent. Paid-cancel (Paid-trans charged paid) sent (omega int_laws))))
