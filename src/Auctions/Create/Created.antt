-- ===== src/Auctions/Create/Created.antt =====
-- What `createAuction` of src/helpers.c does with a request that it accepts.
use zbid.Base.{
  ◌≡◌, refl, ap, true, false, some, List, [], ◌∷◌, ◌++◌, ◌+◌, length, ℤ, pos, ◌+ℤ◌, eq_ℤ, ltb_ℤ,
  not, none, fits_int, str_eq, All,
}
use zbid.LinkedList.Contents.{insert_at_tail}
use zbid.Server.{CString, CharPtr, Address, Auction, User, Server, write}
use zbid.Server.Protocol.{MsgType, Message}
use zbid.Server.Print.{print_int}
use zbid.Server.Monad.{done, strcmp}
use zbid.Auctions.Create.{claim, next_id, new_auction, create_auction}

-- No user of these has the descriptor.
abbrev pub Others : ℤ → List User → Type 0
Others fd = All (λ u. eq_ℤ u.fd fd ≡ false)

-- The user with one more auction of its own.
abbrev pub owner : User → Address → User
owner u p = record u { auctions_owned = insert_at_tail u.auctions_owned p }

abbrev pub created_message : ℤ → ℤ → Message
created_message fd id = record {
  fd = fd;
  msg_type = MsgType.ancreate;
  msg_len = length (print_int id) + 1;
  msgbuf = print_int id;
}

claim-Others :
    (fd : ℤ) (p : Address) (c : CharPtr) (us : List User) → Others fd us → claim fd p c us ≡ (us, c)
unfolding claim
claim-Others fd p c [] others = refl
claim-Others fd p c (u ∷ us) (other, others) =
    rw other (ap (λ r. (u ∷ r.0, r.1)) (claim-Others fd p c us others))

claim-one :
    (fd : ℤ) (p : Address) (c : CharPtr) (us : List User) (u : User) (vs : List User)
    → Others fd us
    → Others fd vs
    → eq_ℤ u.fd fd ≡ true
    → claim fd p c (us ++ u ∷ vs) ≡ (us ++ owner u p ∷ vs, u.username)
unfolding claim
claim-one fd p c [] u vs before behind mine =
    rw mine (ap (λ r. (owner u p ∷ r.0, r.1)) (claim-Others fd p u.username vs behind))
claim-one fd p c (x ∷ us) u vs (other, before) behind mine =
    rw other (ap (λ r. (x ∷ r.0, r.1)) (claim-one fd p c us u vs before behind mine))

-- What the arguments of a request have to be.
pub record IsCreatable (n : CString) (duration price : ℤ) : Type 0 where
  pub called : str_eq n.text [] ≡ false
  pub lasting : ltb_ℤ duration (pos 1) ≡ false
  pub priced : ltb_ℤ price (pos 0) ≡ false

-- A new auction as the clients are to see it: nobody watches or leads, no bid is made, and a price
-- other than 0 sells it at once. The number of watchers is that of the block of `malloc`.
abbrev pub offered : ℤ → CharPtr → ℤ → ℤ → CharPtr → ℤ → Auction
offered id name duration price creator count = record {
  id = id;
  name = name;
  duration = duration;
  bin_price = price;
  bin_flag = not (eq_ℤ price (pos 0));
  bid = pos 0;
  current_winner = none;
  creator = creator;
  watchers = [];
  number_of_watchers = count;
}

-- A request with a name that is not empty, a duration of one tick or more and a price that is not
-- negative, where exactly one user has the descriptor, the semaphore of the ids is free and the next
-- id is in the range of `int`, returns: whatever the block of `malloc` held, the new auction, with
-- the next id, the name, the duration and the price, that user as its creator, the bid 0 and nobody
-- watching or leading, stands last in the list and last among those that the user owns, and the
-- client is sent one ANCREATE with the id; nothing else changes. The number of watchers alone is
-- what the block held.
pub create_auction-Created :
    (p : Address) (block : Auction) (client_fd : ℤ) (n : CString) (duration price : ℤ)
    (us : List User) (u : User) (vs : List User) (s : Server)
    → s.users ≡ us ++ u ∷ vs
    → Others client_fd us
    → eq_ℤ u.fd client_fd ≡ true
    → Others client_fd vs
    → s.auction_id_mutex ≡ 1
    → IsCreatable n duration price
    → fits_int (s.auction_id +ℤ pos 1) ≡ true
    → let id : ℤ = s.auction_id +ℤ pos 1 in
      create_auction p block client_fd (some n) duration price s
      ≡ done tt (record s {
        users = us ++ owner u p ∷ vs;
        auctions = insert_at_tail s.auctions p;
        heap =
            write s.heap p (offered id (some n) duration price u.username block.number_of_watchers);
        auction_id = id;
        sent = s.sent ++ created_message client_fd id ∷ [];
      })
unfolding create_auction next_id strcmp new_auction
create_auction-Created p block client_fd n duration price us u vs s split before mine behind free ok
      fits =
    rw
      (
        ok.called,
        ok.lasting,
        ok.priced,
        free,
        fits,
        split,
        claim-one client_fd p block.creator us u vs before behind mine,
      )
      refl
