-- ===== src/System/Serve.antt =====
-- The loop of `run_server` in src/finalsample.c over the connections that it accepts, and
-- `server_init`, which it starts with.
pub mod Returns
use zbid.Base.{
  ◌≡◌, refl, true, false, Bool, Bool-cases, List, [], ◌∷◌, ◌++◌, ◌&&◌, ◌==◌, not, ℤ, pos, negsuc,
  ltb_ℤ, eq_ℤ, inl, inr, ◌⊎◌, if◌then◌else◌,
}
use zbid.Server.{Server}
use zbid.Server.Protocol.{MsgType, code}
use zbid.Server.Monad.{M, Run, done, stop, pure, and_then, ◌>>=◌}
use zbid.Server.Monad.Ensures
use zbid.Server.Monad.Ensures.{Ensures, returns}
use zbid.Jobs.Accept.{Hello, Accepted, loop_ended, closed, started, ignored, accept_client}
use zbid.Invariant.{IsValid, Keeps}
use zbid.Invariant.Update.{Keeps-refl, Keeps-trans}
use zbid.Invariant.Accepting.{IsLogin, accept_client-Keeps}

-- `server_init`, over the results of `socket`, `setsockopt`, `bind` and `listen`: the descriptor, or
-- the status of an `exit`.
unfoldable pub server_init : ℤ → ℤ → ℤ → ℤ → ℤ ⊎ ℤ
server_init sockfd opt bound listening =
    if eq_ℤ sockfd (negsuc 0)
    then inr (pos 1)
    else if ltb_ℤ opt (pos 0)
    then inr (pos 1)
    else if eq_ℤ bound (pos 0)
    then (if eq_ℤ listening (pos 0) then inl sockfd else inr (pos 1))
    else inr (pos 1)

-- A round of the loop: what `accept` gave, `intFlag` behind it, and what the client sends first.
pub record Arrival : Type 0 where
  pub client_fd : ℤ
  pub int_flag : Bool
  pub hello : Hello

-- The loop waits for the next connection; it waits for `buffer_lock` or in the `read` under it;
-- `run_server` has returned; the process has ended.
pub data Served : Type 0 where
  waiting held_up returned : Served
  exited : ℤ → Served

-- `break` ends the loop, and a wait keeps it where it is.
abbrev pub unless_ended : Accepted → M Served → M Served
unless_ended loop_ended k = pure returned
unless_ended Accepted.held_up k = pure held_up
unless_ended _ k = k

unfoldable pub serve : List Arrival → M Served
unfolding accept_client
serve [] = pure waiting
serve (a ∷ rest) =
    if a.int_flag
    then pure returned
    else if ltb_ℤ a.client_fd (pos 0)
    then pure (exited (pos 1))
    else (do r ← accept_client a.client_fd a.hello; unless_ended r (serve rest))

-- Where the arrivals alone leave the loop, whoever logs in and whatever the answer is.
abbrev pub ends_at : Hello → Served → Served
ends_at m rest =
    if ltb_ℤ m.result (pos 0)
    then returned
    else if eq_ℤ m.result (pos 0) && ((m.msg_type == code MsgType.login) && not m.got_through)
    then held_up
    else rest

abbrev pub outcome : List Arrival → Served
outcome [] = waiting
outcome (a ∷ rest) =
    if a.int_flag
    then returned
    else if ltb_ℤ a.client_fd (pos 0)
    then exited (pos 1)
    else ends_at a.hello (outcome rest)
