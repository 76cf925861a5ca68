-- ===== src/Invariant/Reporting.antt =====
-- The handlers of src/helpers.c that only answer, and the invariant.
use zbid.Base.{
  ℕ, ◌≡◌, refl, some, List, [], ◌∷◌, inl, inr, ℤ, eq_ℤ, All, All-get_elem?, Bool-cases,
  Option-cases, Text,
}
use zbid.Server.{Address, User, Auction, Server, CharPtr}
use zbid.Server.Protocol.{MsgType}
use zbid.Server.Print.{print_int, semicolon, newline}
use zbid.Server.Monad.{M}
use zbid.Server.Monad.Strcat.{strcats, strcats-join, join}
use zbid.Server.Monad.Ensures
use zbid.Server.Monad.Ensures.{Ensures, returns}
use zbid.Users.Find.{find_username}
use zbid.Users.Find.Known.{names}
use zbid.Auctions.Sound.{Readable, Holdings}
use zbid.Auctions.Close.Settle.{strcat-Ensures}
use zbid.Reports.Listing.{
  auction_info, list_loop, list_reply, list_auctions, users_loop, print_users,
}
use zbid.Reports.Account.{
  user_balance, users_wins_info, none_text, users_sales_info, info_loop, info_reply, users_wins,
  users_sales,
}
use zbid.Invariant.{IsNonNull, Listed, IsValidAt}
use zbid.Invariant.Lookup.{client_user-done}
use zbid.Invariant.Update.{OnlySends}

-- The writer of a line reads no NULL and changes nothing, for an auction that has a name.
abbrev IsWriter : (Auction → Text → M Text) → Type 0
IsWriter info =
    (a : Auction) (str : Text) (s : Server)
    → IsNonNull a.name
    → Ensures (λ _ t. t ≡ s) (info a str s)

strcats-Ensures :
    (x : Text) (ys : List Text) (buf : Text) (s : Server)
    → Ensures (λ _ t. t ≡ s) (strcats x ys buf s)
strcats-Ensures x ys buf s = rw (strcats-join x ys buf s) (strcat-Ensures buf (join x ys) s)

users_wins_info-IsWriter : IsWriter users_wins_info
unfolding users_wins_info strcats
users_wins_info-IsWriter a str s (n, named) = rw named (
    strcats-Ensures (print_int a.id)
      (semicolon ∷ n.text ∷ semicolon ∷ print_int a.bid ∷ newline ∷ []) str s)

users_sales_info-IsWriter : IsWriter users_sales_info
unfolding users_sales_info strcats
users_sales_info-IsWriter a str s (n, named) = elim (Option-cases a.current_winner) [
  | inl nobody ↦
      rw (named, nobody)
        (strcats-Ensures (print_int a.id)
          (semicolon ∷ n.text ∷ semicolon ∷ none_text ∷ semicolon ∷ none_text ∷ newline ∷ []) str s)
  | inr (w, somebody) ↦
      rw (named, somebody)
        (strcats-Ensures (print_int a.id)
          (semicolon ∷ n.text ∷ semicolon ∷ w.text ∷ semicolon ∷ print_int a.bid ∷ newline ∷ []) str
          s)
]

info_loop-Ensures :
    (info : Auction → Text → M Text) (ps : List Address) (buf : Text) (s : Server)
    → IsWriter info
    → All (Readable s.heap) ps
    → Ensures (λ _ t. t ≡ s) (info_loop info ps buf s)
unfolding info_loop
info_loop-Ensures info [] buf s writer readable = returns refl
info_loop-Ensures info (p ∷ ps) buf s writer ((a, here, named), readable) = rw here (
    Ensures.bind (writer a buf s named)
      λ b t e. rw e (info_loop-Ensures info ps b s writer readable))

info_reply-OnlySends :
    (fd : ℤ) (type : MsgType) (info : Auction → Text → M Text) (ps : List Address) (s : Server)
    → IsWriter info
    → All (Readable s.heap) ps
    → Ensures (λ _ t. OnlySends s t) (info_reply fd type info ps s)
unfolding info_reply
info_reply-OnlySends fd type info [] s writer readable = returns (_, refl)
info_reply-OnlySends fd type info (p ∷ ps) s writer readable =
    Ensures.bind (info_loop-Ensures info (p ∷ ps) [] s writer readable)
      λ b t e. rw e (returns (_, refl))

module _ {m : ℕ} (client_fd : ℤ) (i : ℕ) (s : Server) (v : IsValidAt m s)
    (found : find_username client_fd s.users ≡ some i) where
  pub user_balance-OnlySends : Ensures (λ _ t. OnlySends s t) (user_balance client_fd s)
  unfolding user_balance
  user_balance-OnlySends =
      let (u, e, at, _) = client_user-done client_fd s i found in
      rw e
        (Ensures.bind (strcat-Ensures [] (print_int u.balance) s) λ b t e. rw e (returns (_, refl)))

  pub users_wins-OnlySends : Ensures (λ _ t. OnlySends s t) (users_wins client_fd s)
  unfolding users_wins
  users_wins-OnlySends =
      let (u, e, at, _) = client_user-done client_fd s i found in
      rw e (
        info_reply-OnlySends client_fd MsgType.usrwins users_wins_info u.auctions_won s
          users_wins_info-IsWriter (All-get_elem? (Holdings s.heap) s.users i at v.held).1)

  pub users_sales-OnlySends : Ensures (λ _ t. OnlySends s t) (users_sales client_fd s)
  unfolding users_sales
  users_sales-OnlySends =
      let (u, e, at, _) = client_user-done client_fd s i found in
      rw e (
        info_reply-OnlySends client_fd MsgType.usrsales users_sales_info u.auctions_owned s
          users_sales_info-IsWriter (All-get_elem? (Holdings s.heap) s.users i at v.held).0)

users_loop-Ensures :
    (fd : ℤ) (us : List User) (buf : Text) (s : Server)
    → All IsNonNull (names us)
    → Ensures (λ _ t. t ≡ s) (users_loop fd us buf s)
unfolding users_loop strcats
users_loop-Ensures fd [] buf s named = returns refl
users_loop-Ensures fd (u ∷ us) buf s ((n, e), named) = elim (Bool-cases (eq_ℤ u.fd fd)) [
  | inl own ↦ rw own (users_loop-Ensures fd us buf s named)
  | inr other ↦
      rw (other, e)
        (Ensures.bind (strcats-Ensures n.text (newline ∷ []) buf s)
          λ b t e. rw e (users_loop-Ensures fd us b s named))
]

-- Whatever the buffer on the stack held.
pub print_users-OnlySends :
    {m : ℕ} (stack : Text) (fd : ℤ) (s : Server)
    → IsValidAt m s
    → Ensures (λ _ t. OnlySends s t) (print_users stack fd s)
unfolding print_users
print_users-OnlySends stack fd s v =
    Ensures.bind (users_loop-Ensures fd s.users stack s v.named) λ b t e. rw e (returns (_, refl))

auction_info-IsWriter : IsWriter auction_info
unfolding auction_info strcats
auction_info-IsWriter a str s (n, named) = rw named (
    strcats-Ensures (print_int a.id)
      (semicolon
        ∷ n.text
        ∷ semicolon
        ∷ print_int a.bin_price
        ∷ semicolon
        ∷ print_int a.number_of_watchers
        ∷ semicolon
        ∷ print_int a.bid
        ∷ semicolon
        ∷ print_int a.duration
        ∷ newline
        ∷ [])
      str s)

list_loop-Ensures :
    (ns : List CharPtr) (ps : List Address) (buf : Text) (s : Server)
    → All (Listed s.heap ns) ps
    → Ensures (λ _ t. t ≡ s) (list_loop ps buf s)
unfolding list_loop
list_loop-Ensures ns [] buf s listed = returns refl
list_loop-Ensures ns (p ∷ ps) buf s ((a, here, sound), listed) = rw here (
    Ensures.bind (auction_info-IsWriter a buf s sound.named)
      λ b t e. rw e (list_loop-Ensures ns ps b s listed))

list_reply-OnlySends :
    (ns : List CharPtr) (fd : ℤ) (ps : List Address) (s : Server)
    → All (Listed s.heap ns) ps
    → Ensures (λ _ t. OnlySends s t) (list_reply fd ps s)
unfolding list_reply
list_reply-OnlySends ns fd [] s listed = returns (_, refl)
list_reply-OnlySends ns fd (p ∷ ps) s listed =
    Ensures.bind (list_loop-Ensures ns (p ∷ ps) [] s listed) λ b t e. rw e (returns (_, refl))

pub list_auctions-OnlySends :
    {m : ℕ} (fd : ℤ) (s : Server)
    → IsValidAt m s
    → Ensures (λ _ t. OnlySends s t) (list_auctions fd s)
unfolding list_auctions
list_auctions-OnlySends fd s v = list_reply-OnlySends (names s.users) fd s.auctions s v.listed
