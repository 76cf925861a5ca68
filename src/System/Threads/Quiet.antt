-- ===== src/System/Threads/Quiet.antt =====
-- Pieces of src/helpers.c that leave every semaphore as it is: the steps that they are made of.
pub mod Handlers
pub mod Sessions
pub mod Reports
use zbid.Base.{
  ◌≡◌, refl, ◌∙◌, Bool, true, false, Option, none, some, ℕ, ℤ, Text, length, leb, ◌++◌, ◌+◌, ◌+ℤ◌,
  ◌-ℤ◌, fits_int, get_elem?, if◌then◌else◌,
}
use zbid.Server.{CharPtr, Address, User, Auction, Server}
use zbid.Server.Protocol.{MsgType}
use zbid.Server.Monad.{
  Run, M, Stop, blocked, null_deref, done, stop, and_then, pure, halt, overrun, overflow, deref,
  load_auction, store_auction, load_user, store_user, add_int, sub_int, strcat, wr_msg, reply,
  reply_with,
}
use zbid.Users.Find.{find_username, client_user}
use zbid.Jobs.Text.{atoi, parse_int}
use zbid.Jobs.Block.{string_or_stop}

pub record SameValues (s t : Server) : Type 0 where
  pub users : t.users_mutex ≡ s.users_mutex
  pub auctions : t.auctions_mutex ≡ s.auctions_mutex
  pub ids : t.auction_id_mutex ≡ s.auction_id_mutex

-- The thread does not wait, but ends with the process.
abbrev pub IsCrash : Stop → Type 0
IsCrash blocked = ⊥
IsCrash _ = Unit

-- A run from a state that waits for no semaphore and ends, if it returns, with the same values of the semaphores.
pub data Quiet {A : Type 0} (s : Server) : Run A → Type 0 where
  back : {a : A} {t : Server} → SameValues s t → Quiet s (done a t)
  ended : {e : Stop} → IsCrash e → Quiet s (stop e)

pub SameValues-refl : (s : Server) → SameValues s s
SameValues-refl s = record { users = refl; auctions = refl; ids = refl }

later : {A : Type 0} {s t : Server} {r : Run A} → SameValues s t → Quiet t r → Quiet s r
later v (back w) =
    back (record {
      users = w.users ∙ v.users;
      auctions = w.auctions ∙ v.auctions;
      ids = w.ids ∙ v.ids;
    })
later v (ended c) = ended c

pub bind :
    {A B : Type 0} {s : Server} {r : Run A} {k : A → M B}
    → Quiet s r
    → ((a : A) (t : Server) → Quiet t (k a t))
    → Quiet s (and_then r k)
bind (back v) next = later v (next _ _)
bind (ended c) next = ended c

pub branch :
    {A : Type 0} (c : Bool) (m n : M A) {s : Server}
    → Quiet s (m s)
    → Quiet s (n s)
    → Quiet s ((if c then m else n) s)
branch true m n yes_case no_case = yes_case
branch false m n yes_case no_case = no_case

pub returned : {A : Type 0} (a : A) (s : Server) → Quiet s (done a s)
returned a s = back (SameValues-refl s)

pub deref-Quiet : {A : Type 0} (o : Option A) (s : Server) → Quiet s (deref o s)
deref-Quiet none s = ended tt
deref-Quiet (some a) s = returned a s

pub load_auction-Quiet : (p : Address) (s : Server) → Quiet s (load_auction p s)
unfolding load_auction
load_auction-Quiet p s = deref-Quiet (s.heap p) s

pub load_user-Quiet : (i : ℕ) (s : Server) → Quiet s (load_user i s)
unfolding load_user
load_user-Quiet i s = deref-Quiet (get_elem? s.users i) s

pub store_auction-Quiet : (p : Address) (a : Auction) (s : Server) → Quiet s (store_auction p a s)
unfolding store_auction
store_auction-Quiet p a s = back (record { users = refl; auctions = refl; ids = refl })

pub store_user-Quiet : (i : ℕ) (u : User) (s : Server) → Quiet s (store_user i u s)
unfolding store_user
store_user-Quiet i u s = back (record { users = refl; auctions = refl; ids = refl })

pub add_int-Quiet : (a b : ℤ) (s : Server) → Quiet s (add_int a b s)
unfolding add_int
add_int-Quiet a b s = branch (fits_int (a +ℤ b)) _ _ (returned (a +ℤ b) s) (ended tt)

pub sub_int-Quiet : (a b : ℤ) (s : Server) → Quiet s (sub_int a b s)
unfolding sub_int
sub_int-Quiet a b s = branch (fits_int (a -ℤ b)) _ _ (returned (a -ℤ b) s) (ended tt)

pub strcat-Quiet : (buf str : Text) (s : Server) → Quiet s (strcat buf str s)
unfolding strcat
strcat-Quiet buf str s =
    branch (leb (length (buf ++ str) + 1) 1024) _ _ (returned (buf ++ str) s) (ended tt)

pub wr_msg-Quiet :
    (fd : ℤ) (type : MsgType) (len : ℕ) (buf : Text) (s : Server)
    → Quiet s (wr_msg fd type len buf s)
unfolding wr_msg
wr_msg-Quiet fd type len buf s = back (record { users = refl; auctions = refl; ids = refl })

pub reply-Quiet : (fd : ℤ) (type : MsgType) (s : Server) → Quiet s (reply fd type s)
unfolding reply
reply-Quiet fd type s = wr_msg-Quiet fd type 0 _ s

pub reply_with-Quiet :
    (fd : ℤ) (type : MsgType) (buf : Text) (s : Server) → Quiet s (reply_with fd type buf s)
unfolding reply_with
reply_with-Quiet fd type buf s = wr_msg-Quiet fd type _ buf s

pub client_user-Quiet : (fd : ℤ) (s : Server) → Quiet s (client_user fd s)
unfolding client_user
client_user-Quiet fd s = bind (deref-Quiet (find_username fd s.users) s) load_user-Quiet

pub atoi-Quiet : (c : CharPtr) (s : Server) → Quiet s (atoi c s)
unfolding atoi
atoi-Quiet c s =
    bind (deref-Quiet c s)
      λ t q. branch (fits_int (parse_int t.text)) _ _ (returned (parse_int t.text) q) (ended tt)

pub string_or_stop-Quiet : (t : Option Text) (s : Server) → Quiet s (string_or_stop t s)
string_or_stop-Quiet none s = ended tt
string_or_stop-Quiet (some t) s = returned t s
