-- ===== src/Server/Monad.antt =====
-- A handler is a function from the state to its result and the new state, or to the undefined
-- behaviour or the wait that ends it.
pub mod Ensures
pub mod Strcat
use zbid.Base.{
  ℕ, zero, suc, ◌+◌, leb, Bool, Option, none, some, [], ◌∷◌, ◌++◌, length, get_elem?, set, ℤ, ◌+ℤ◌,
  ◌-ℤ◌, fits_int, Text, str_eq, if◌then◌else◌,
}
use zbid.Server.{Address, CharPtr, User, Auction, Server, write}
use zbid.Server.Protocol.{MsgType}

-- A NULL or wild pointer is read; a buffer is overrun; a sum of two `int`s is out of range; the
-- thread waits for a semaphore.
pub data Stop : Type 0 where
  null_deref overrun overflow blocked : Stop

pub data Run (A : Type 0) : Type 0 where
  done : A → Server → Run A
  stop : Stop → Run A

abbrev pub M : Type 0 → Type 0
M A = Server → Run A

abbrev pub pure : {A : Type 0} → A → M A
pure = done

abbrev pub halt : {A : Type 0} → Stop → M A
halt e s = stop e

module _ {A B : Type 0} where
  abbrev pub and_then : Run A → (A → M B) → Run B
  and_then (done a s) k = k a s
  and_then (stop e) k = stop e

  infixl 5 ◌>>=◌ ◌>>◌
  abbrev pub ◌>>=◌ : M A → (A → M B) → M B
  m >>= k = λ s. and_then (m s) k

  abbrev pub ◌>>◌ : M A → M B → M B
  m >> n = m >>= λ _. n

abbrev pub gets : {A : Type 0} → (Server → A) → M A
gets f s = done (f s) s

abbrev pub modify : (Server → Server) → M (Unit {0})
modify f s = done tt (f s)

-- `*p`, of a pointer that may be NULL.
abbrev pub deref : {A : Type 0} → Option A → M A
deref none = halt null_deref
deref (some a) = pure a

-- `strcmp(a, b) == 0`; `none` where a pointer is NULL.
unfoldable pub strcmp : CharPtr → CharPtr → Option Bool
strcmp none b = none
strcmp (some a) none = none
strcmp (some a) (some b) = some (str_eq a.text b.text)

unfoldable pub load_auction : Address → M Auction
load_auction p s = deref (s.heap p) s

unfoldable pub store_auction : Address → Auction → M (Unit {0})
store_auction p a s = done tt (record s { heap = write s.heap p a })

-- A `users_t *` is the position of the user in `usersList`, which nothing is removed from.
unfoldable pub load_user : ℕ → M User
load_user i s = deref (get_elem? s.users i) s

unfoldable pub store_user : ℕ → User → M (Unit {0})
store_user i u s = done tt (record s { users = set s.users i u })

-- `a + b` and `a - b` on `int`.
unfoldable pub add_int : ℤ → ℤ → M ℤ
add_int a b = if fits_int (a +ℤ b) then pure (a +ℤ b) else halt overflow

unfoldable pub sub_int : ℤ → ℤ → M ℤ
sub_int a b = if fits_int (a -ℤ b) then pure (a -ℤ b) else halt overflow

abbrev pub buffer_size : ℕ
buffer_size = 1024

-- `strcat` to a buffer of `BUFFER_SIZE` bytes, which hold the terminating NUL too.
unfoldable pub strcat : Text → Text → M Text
strcat buf str =
    if leb (length (buf ++ str) + 1) buffer_size then pure (buf ++ str) else halt overrun

-- `wr_msg` with the header's length and type as given.
unfoldable pub wr_msg : ℤ → MsgType → ℕ → Text → M (Unit {0})
wr_msg fd type len buf s = done tt (record s {
  sent = s.sent ++ record { fd = fd; msg_type = type; msg_len = len; msgbuf = buf } ∷ [];
})

-- A message without a body, and one whose length counts the terminating NUL of its body.
unfoldable pub reply : ℤ → MsgType → M (Unit {0})
unfolding wr_msg
reply fd type = wr_msg fd type 0 []

unfoldable pub reply_with : ℤ → MsgType → Text → M (Unit {0})
unfolding wr_msg
reply_with fd type buf = wr_msg fd type (length buf + 1) buf

pub data Semaphore : Type 0 where
  users_mutex auctions_mutex auction_id_mutex : Semaphore

abbrev pub value : Semaphore → Server → ℕ
value users_mutex s = s.users_mutex
value auctions_mutex s = s.auctions_mutex
value auction_id_mutex s = s.auction_id_mutex

abbrev pub set_value : Semaphore → ℕ → Server → Server
set_value users_mutex n s = record s { users_mutex = n }
set_value auctions_mutex n s = record s { auctions_mutex = n }
set_value auction_id_mutex n s = record s { auction_id_mutex = n }

-- `P` and `V`.
unfoldable pub sem_wait : Semaphore → M (Unit {0})
sem_wait m s = elim (value m s) [ zero ↦ stop blocked | suc n ↦ done tt (set_value m n s) ]

unfoldable pub sem_post : Semaphore → M (Unit {0})
sem_post m s = done tt (set_value m (suc (value m s)) s)
