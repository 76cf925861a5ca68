-- ===== src/Server/Monad/Ensures.antt =====
-- What a handler guarantees: it reads no NULL or wild pointer and waits for no semaphore, and where
-- it returns, its result and its state have a property. It may stop at the end of a buffer or at
-- the end of the range of `int`.
use zbid.Base.{◌≡◌, subst}
use zbid.Server.{Server}
use zbid.Server.Monad.{Stop, overrun, overflow, Run, done, stop, M, and_then}

abbrev pub IsBound : Stop → Type 0
IsBound overrun = Unit
IsBound overflow = Unit
IsBound _ = ⊥

pub data Ensures {A : Type 0} (P : A → Server → Type 0) : Run A → Type 0 where
  returns : {a : A} {s : Server} → P a s → Ensures P (done a s)
  bounded : {e : Stop} → IsBound e → Ensures P (stop e)

module _ {A : Type 0} {P : A → Server → Type 0} where
  pub bind :
      {B : Type 0} {Q : B → Server → Type 0} {r : Run A} {k : A → M B}
      → Ensures P r
      → ((a : A) (s : Server) → P a s → Ensures Q (k a s))
      → Ensures Q (and_then r k)
  bind (returns p) next = next _ _ p
  bind (bounded b) next = bounded b

  pub mono :
      {Q : A → Server → Type 0} {r : Run A}
      → Ensures P r
      → ((a : A) (s : Server) → P a s → Q a s)
      → Ensures Q r
  mono (returns p) weaken = returns (weaken _ _ p)
  mono (bounded b) weaken = bounded b

  pub Ensures-done : {a : A} {s : Server} → Ensures P (done a s) → P a s
  Ensures-done (returns p) = p

  pub Ensures-run : {r : Run A} {a : A} {s : Server} → Ensures P r → r ≡ done a s → P a s
  Ensures-run e runs = Ensures-done (subst (Ensures P) runs e)
