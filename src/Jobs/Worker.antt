-- ===== src/Jobs/Worker.antt =====
-- `run_jobs` of src/finalsample.c: a thread that takes jobs from the buffer and processes them.
pub mod Order
use zbid.Base.{ℕ, zero, suc, ◌==◌, Option, none, some, true, false, if◌then◌else◌}
use zbid.Server.{Server}
use zbid.Server.Monad
use zbid.Server.Monad.{Run}
use zbid.Jobs.Buffer
use zbid.Jobs.Buffer.{SBuf, sbuf_remove}
use zbid.Jobs.Process.{Blocks, Job, process_job}

-- The jobs that were allocated, by their addresses.
abbrev pub Store : Type 0
Store = ℕ → Option Job

-- `free(job)`.
unfoldable pub free_job : ℕ → Store → Store
free_job p jobs q = if q == p then none else jobs q

-- After some rounds: the thread goes on, the buffer keeps it, or a job ends it.
pub data Worked : Type 0 where
  going : Store → SBuf → Server → Worked
  at_buffer : Buffer.Stop → Worked
  failed : Monad.Stop → Worked

-- What follows a call that returns.
abbrev pub on_return : Run (Unit {0}) → (Server → Worked) → Worked
on_return (Monad.done _ s) k = k s
on_return (Monad.stop e) k = failed e

-- So many rounds of the loop. `blocks` is what the allocator gives in a round, by the rounds left.
unfoldable pub run_jobs : ℕ → (ℕ → Blocks) → ℕ → Store → SBuf → Server → Worked
unfolding free_job
run_jobs word blocks zero jobs b s = going jobs b s
run_jobs word blocks (suc k) jobs b s = elim (sbuf_remove word b) [
  | Buffer.stop e ↦ at_buffer e
  | Buffer.done p b' ↦ elim (p == 0) [
    | true ↦ run_jobs word blocks k jobs b' s
    | false ↦ elim (jobs p) [
      | none ↦ failed Monad.null_deref
      | some job ↦
          on_return (process_job (blocks k) job s)
            λ t. run_jobs word blocks k (free_job p jobs) b' t
    ]
  ]
]
