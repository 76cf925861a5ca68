-- ===== src/Auctions/Close/Paid.antt =====
-- What the payments of `closeAuction` change: balances, by a known sum, and nothing else that the
-- invariant reads.
use zbid.Base.{
  ℕ, ◌≡◌, refl, sym, subst, some, List, inl, inr, get_elem?, set, ℤ, pos, ◌+ℤ◌, ◌-ℤ◌, int_laws,
  fits_int, [], ◌∷◌, All, All-append, All-set, ◌∙◌, Bool-cases,
}
use zbid.Server.{CString, Address, User, Server}
use zbid.Server.Protocol.{Message}
use zbid.Server.Monad.Ensures.{Ensures, returns, bounded}
use zbid.Users.Find.Known.{names, fds, passwords, Knows, find_user_struct-names, get_elem?-of_found}
use zbid.Auctions.Sound.{Readable, Holdings}
use zbid.Users.Total.{total, total-set, names-set, fds-set, passwords-set}
use zbid.Auctions.Close.{charge_winner, pay_creator}

-- The users keep their names, descriptors and passwords, and hold auctions that can be read; all but
-- users and messages stays.
pub record Frame (s t : Server) : Type 0 where
  pub same_names : names t.users ≡ names s.users
  pub same_fds : fds t.users ≡ fds s.users
  pub same_passwords : passwords t.users ≡ passwords s.users
  pub same_auctions : t.auctions ≡ s.auctions
  pub same_heap : t.heap ≡ s.heap
  pub same_id : t.auction_id ≡ s.auction_id
  pub same_tick : t.tick ≡ s.tick
  pub same_users_mutex : t.users_mutex ≡ s.users_mutex
  pub same_auctions_mutex : t.auctions_mutex ≡ s.auctions_mutex
  pub same_id_mutex : t.auction_id_mutex ≡ s.auction_id_mutex
  pub held : All (Holdings s.heap) s.users → All (Holdings t.heap) t.users

pub Frame-trans : {s t r : Server} → Frame s t → Frame t r → Frame s r
Frame-trans f g = record {
  same_names = g.same_names ∙ f.same_names;
  same_fds = g.same_fds ∙ f.same_fds;
  same_passwords = g.same_passwords ∙ f.same_passwords;
  same_auctions = g.same_auctions ∙ f.same_auctions;
  same_heap = g.same_heap ∙ f.same_heap;
  same_id = g.same_id ∙ f.same_id;
  same_tick = g.same_tick ∙ f.same_tick;
  same_users_mutex = g.same_users_mutex ∙ f.same_users_mutex;
  same_auctions_mutex = g.same_auctions_mutex ∙ f.same_auctions_mutex;
  same_id_mutex = g.same_id_mutex ∙ f.same_id_mutex;
  held = λ h. g.held (f.held h);
}

-- Balances move by `change` in all.
pub record Paid (change : ℤ) (s t : Server) : Type 0 where
  pub frame : Frame s t
  pub money : total t.users ≡ total s.users +ℤ change

pub Paid-trans : {a b : ℤ} {s t r : Server} → Paid a s t → Paid b t r → Paid (a +ℤ b) s r
Paid-trans p q = record {
  frame = Frame-trans p.frame q.frame;
  money = rw (q.money, p.money) (omega int_laws);
}

-- After a payment and its counterpart, the balances have the sum that they had.
pub Paid-cancel :
    {a b : ℤ} {s t r : Server} → Paid a s t → Paid b t r → a +ℤ b ≡ pos 0 → Paid (pos 0) s r
Paid-cancel {s} {r} p q e = subst (λ c. Paid c s r) e (Paid-trans p q)

-- A message changes no balance.
pub Paid-sent : (s : Server) (ms : List Message) → Paid (pos 0) s (record s { sent = ms })
Paid-sent s ms = record {
  frame = record {
    same_names = refl;
    same_fds = refl;
    same_passwords = refl;
    same_auctions = refl;
    same_heap = refl;
    same_id = refl;
    same_tick = refl;
    same_users_mutex = refl;
    same_auctions_mutex = refl;
    same_id_mutex = refl;
    held = λ h. h;
  };
  money = omega int_laws;
}

-- A user's balance is rewritten, and the user keeps name, descriptor and password.
store-Paid :
    (change : ℤ) (i : ℕ) (u v : User) (s : Server)
    → s.users_mutex ≡ 1
    → get_elem? s.users i ≡ some u
    → v.username ≡ u.username
    → v.fd ≡ u.fd
    → v.password ≡ u.password
    → v.balance ≡ u.balance +ℤ change
    → (Holdings s.heap u → Holdings s.heap v)
    → Paid change s (record s { users_mutex = 1; users = set s.users i v })
store-Paid change i u v s free at name fd word bal holds = record {
  frame = record {
    same_names = names-set s.users i u v at name;
    same_fds = fds-set s.users i u v at fd;
    same_passwords = passwords-set s.users i u v at word;
    same_auctions = refl;
    same_heap = refl;
    same_id = refl;
    same_tick = refl;
    same_users_mutex = sym free;
    same_auctions_mutex = refl;
    same_id_mutex = refl;
    held = All-set (Holdings s.heap) s.users i u v at holds;
  };
  money = grind (int_laws, total-set s.users i u v at);
}

pub charge_winner-Paid :
    (w : CString) (p : Address) (bid : ℤ) (s : Server)
    → s.users_mutex ≡ 1
    → Readable s.heap p
    → Knows (names s.users) (some w)
    → Ensures (λ _ t. Paid (pos 0 -ℤ bid) s t) (charge_winner (some w) p bid s)
unfolding charge_winner
charge_winner-Paid w p bid s free won (i, found) =
    let (u, at) = get_elem?-of_found (some w) s.users i found in
    elim (Bool-cases (fits_int (u.balance -ℤ bid))) [
      | inl fits ↦
          rw (free, find_user_struct-names, found, at, fits)
            (returns (
              store-Paid _ i u _ (record s { users_mutex = 1 }) refl at refl refl refl
                (omega int_laws)
                (λ (owned, had).
                  (owned, All-append (Readable s.heap) u.auctions_won (p ∷ []) had (won, tt)))))
      | inr big ↦ rw (free, find_user_struct-names, found, at, big) (bounded tt)
    ]

pub pay_creator-Paid :
    (creator : CString) (bid : ℤ) (s : Server)
    → s.users_mutex ≡ 1
    → Knows (names s.users) (some creator)
    → Ensures (λ _ t. Paid bid s t) (pay_creator (some creator) bid s)
unfolding pay_creator
pay_creator-Paid creator bid s free (i, found) =
    let (u, at) = get_elem?-of_found (some creator) s.users i found in
    elim (Bool-cases (fits_int (u.balance +ℤ bid))) [
      | inl fits ↦
          rw (free, find_user_struct-names, found, at, fits)
            (returns (
              store-Paid _ i u _ (record s { users_mutex = 1 }) refl at refl refl refl refl
                (λ h. h)))
      | inr big ↦ rw (free, find_user_struct-names, found, at, big) (bounded tt)
    ]
