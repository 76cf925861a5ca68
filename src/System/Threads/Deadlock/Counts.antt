-- ===== src/System/Threads/Deadlock/Counts.antt =====
-- The semaphores of src/finalsample.c and what the threads hold, counted.
use zbid.Base.{◌≡◌, subst, Bool, true, false, some, List, [], ◌∷◌, ℕ, suc, ◌+◌, arith}
use mathlib.Core.Option.{some-injective}
use zbid.Server.{Server}
use zbid.Server.Monad.{Semaphore, users_mutex, auctions_mutex, auction_id_mutex, value, set_value}
use zbid.System.Threads.{Prog}
use zbid.System.Threads.Locking.{
  Inner, no_other, with_users, with_ids, Holding, idle, taking, giving, Follows,
}

-- How often a semaphore is held.
abbrev pub outer : Bool → ℕ
outer true = 1
outer false = 0

abbrev pub users_of : Inner → ℕ
users_of with_users = 1
users_of _ = 0

abbrev pub ids_of : Inner → ℕ
ids_of with_ids = 1
ids_of _ = 0

abbrev pub holds : Semaphore → Holding → ℕ
holds users_mutex (o, i) = users_of i
holds auction_id_mutex (o, i) = ids_of i
holds auctions_mutex (o, i) = outer o

abbrev pub held : Semaphore → List Holding → ℕ
held x [] = 0
held x (h ∷ hs) = holds x h + held x hs

-- What each thread holds.
abbrev pub Fits : List (Prog (Unit {0})) → List Holding → Type 0
Fits [] [] = Unit
Fits (p ∷ ps) (h ∷ hs) = Follows h p idle × Fits ps hs
Fits _ _ = ⊥

-- Every semaphore is free or held once.
pub record IsOrdered (ps : List (Prog (Unit {0}))) (s : Server) : Type 0 where
  pub holdings : List Holding
  pub fits : Fits ps holdings
  pub counted : (x : Semaphore) → held x holdings + value x s ≡ 1

-- The semaphores are different.
abbrev pub same : Semaphore → Semaphore → ℕ
same users_mutex users_mutex = 1
same auctions_mutex auctions_mutex = 1
same auction_id_mutex auction_id_mutex = 1
same _ _ = 0

pub value-set :
    (x y : Semaphore) (n : ℕ) (s : Server)
    → value x s ≡ suc n
    → value y (set_value x n s) + same x y ≡ value y s
value-set users_mutex users_mutex n s e = omega (arith, e)
value-set users_mutex auctions_mutex n s e = omega arith
value-set users_mutex auction_id_mutex n s e = omega arith
value-set auctions_mutex users_mutex n s e = omega arith
value-set auctions_mutex auctions_mutex n s e = omega (arith, e)
value-set auctions_mutex auction_id_mutex n s e = omega arith
value-set auction_id_mutex users_mutex n s e = omega arith
value-set auction_id_mutex auctions_mutex n s e = omega arith
value-set auction_id_mutex auction_id_mutex n s e = omega (arith, e)

pub value-give :
    (x y : Semaphore) (s : Server)
    → value y (set_value x (suc (value x s)) s) ≡ value y s + same x y
value-give users_mutex users_mutex s = omega arith
value-give users_mutex auctions_mutex s = omega arith
value-give users_mutex auction_id_mutex s = omega arith
value-give auctions_mutex users_mutex s = omega arith
value-give auctions_mutex auctions_mutex s = omega arith
value-give auctions_mutex auction_id_mutex s = omega arith
value-give auction_id_mutex users_mutex s = omega arith
value-give auction_id_mutex auctions_mutex s = omega arith
value-give auction_id_mutex auction_id_mutex s = omega arith

-- Two holdings of which the second has one semaphore more.
abbrev pub More : Semaphore → Holding → Holding → Type 0
More x h g = (y : Semaphore) → holds y g ≡ holds y h + same x y

More-users : (o : Bool) → More users_mutex (o, no_other) (o, with_users)
More-users o users_mutex = omega arith
More-users o auctions_mutex = omega arith
More-users o auction_id_mutex = omega arith

More-ids : (o : Bool) → More auction_id_mutex (o, no_other) (o, with_ids)
More-ids o users_mutex = omega arith
More-ids o auctions_mutex = omega arith
More-ids o auction_id_mutex = omega arith

More-auctions : More auctions_mutex (false, no_other) (true, no_other)
More-auctions users_mutex = omega arith
More-auctions auctions_mutex = omega arith
More-auctions auction_id_mutex = omega arith

pub taking-More : (x : Semaphore) (h g : Holding) → taking x h ≡ some g → More x h g
taking-More users_mutex (o, no_other) g e =
    subst (More users_mutex _) (some-injective _ g e) (More-users o)
taking-More users_mutex (o, with_users) g e = cc
taking-More users_mutex (o, with_ids) g e = cc
taking-More auction_id_mutex (o, no_other) g e =
    subst (More auction_id_mutex _) (some-injective _ g e) (More-ids o)
taking-More auction_id_mutex (o, with_users) g e = cc
taking-More auction_id_mutex (o, with_ids) g e = cc
taking-More auctions_mutex (false, no_other) g e =
    subst (More auctions_mutex _) (some-injective _ g e) More-auctions
taking-More auctions_mutex (false, with_users) g e = cc
taking-More auctions_mutex (false, with_ids) g e = cc
taking-More auctions_mutex (true, i) g e = cc

pub giving-More : (x : Semaphore) (h g : Holding) → giving x h ≡ some g → More x g h
giving-More users_mutex (o, with_users) g e =
    subst (λ k. More users_mutex k (o, with_users)) (some-injective _ g e) (More-users o)
giving-More users_mutex (o, no_other) g e = cc
giving-More users_mutex (o, with_ids) g e = cc
giving-More auction_id_mutex (o, with_ids) g e =
    subst (λ k. More auction_id_mutex k (o, with_ids)) (some-injective _ g e) (More-ids o)
giving-More auction_id_mutex (o, with_users) g e = cc
giving-More auction_id_mutex (o, no_other) g e = cc
giving-More auctions_mutex (true, no_other) g e =
    subst (λ k. More auctions_mutex k (true, no_other)) (some-injective _ g e) More-auctions
giving-More auctions_mutex (true, with_users) g e = cc
giving-More auctions_mutex (true, with_ids) g e = cc
giving-More auctions_mutex (false, i) g e = cc
