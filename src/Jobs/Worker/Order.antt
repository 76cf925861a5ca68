-- ===== src/Jobs/Worker/Order.antt =====
-- The jobs that wait in the buffer are processed in the order in which they came.
use zbid.Base.{
  ◌≡◌, refl, ap, sym, ◌∙◌, false, some, List, [], ◌∷◌, ℕ, suc, ◌+◌, ◌^◌, ◌<◌, ◌==◌, length, All,
  arith,
}
use zbid.Server.{Server}
use zbid.Server.Monad.{M, Run, pure, done, stop, ◌>>◌, and_then}
use zbid.Jobs.Buffer.{SBuf}
use zbid.Jobs.Buffer.Queue.{IsQueue, sbuf_remove-cons}
use zbid.Jobs.Process.{Blocks, Job, process_job}
use zbid.Jobs.Worker.{Store, free_job, Worked, going, failed, on_return, run_jobs}

-- At the addresses, which are not NULL and all distinct, lie the jobs.
abbrev pub Stored : Store → List ℕ → List Job → Type 0
Stored jobs [] [] = Unit
Stored jobs [] (j ∷ js) = ⊥
Stored jobs (p ∷ ps) [] = ⊥
Stored jobs (p ∷ ps) (j ∷ js) =
    ((p == 0) ≡ false) × (jobs p ≡ some j) × All (λ q. (q == p) ≡ false) ps × Stored jobs ps js

-- The jobs one after the other.
unfoldable pub handle_all : (ℕ → Blocks) → List Job → M (Unit {0})
handle_all blocks [] = pure tt
handle_all blocks (j ∷ js) = process_job (blocks (length js)) j >> handle_all blocks js

abbrev pub all_freed : List ℕ → Store → Store
all_freed [] jobs = jobs
all_freed (p ∷ ps) jobs = all_freed ps (free_job p jobs)

abbrev pub worked : Store → SBuf → Run (Unit {0}) → Worked
worked jobs b (done _ s) = going jobs b s
worked jobs b (stop e) = failed e

free_job-ne : (jobs : Store) (p q : ℕ) → (q == p) ≡ false → free_job p jobs q ≡ jobs q
unfolding free_job
free_job-ne jobs p q other = rw other refl

Stored-free :
    (jobs : Store) (p : ℕ) (ps : List ℕ) (js : List Job)
    → All (λ q. (q == p) ≡ false) ps
    → Stored jobs ps js
    → Stored (free_job p jobs) ps js
Stored-free jobs p [] [] apart stored = tt
Stored-free jobs p [] (j ∷ js) apart stored = stored
Stored-free jobs p (q ∷ ps) [] apart stored = stored
Stored-free jobs p (q ∷ ps) (j ∷ js) (other, apart) (given, at, distinct, stored) =
    (given, free_job-ne jobs p q other ∙ at, distinct, Stored-free jobs p ps js apart stored)

on_return-worked :
    (r : Run (Unit {0})) (k : Server → Worked) (rest : M (Unit {0})) (jobs : Store) (c : SBuf)
    → ((t : Server) → k t ≡ worked jobs c (rest t))
    → on_return r k ≡ worked jobs c (and_then r λ _. rest)
on_return-worked (done _ t) k rest jobs c go = go t
on_return-worked (stop e) k rest jobs c go = refl

length-Stored :
    (jobs : Store) (ps : List ℕ) (js : List Job) → Stored jobs ps js → length ps ≡ length js
length-Stored jobs [] [] stored = refl
length-Stored jobs [] (j ∷ js) stored = absurd stored
length-Stored jobs (p ∷ ps) [] stored = absurd stored
length-Stored jobs (p ∷ ps) (j ∷ js) (_, _, _, stored) = ap suc (length-Stored jobs ps js stored)

-- The buffer that is left is the same whatever the jobs do.
run_jobs-worked :
    (word : ℕ) (blocks : ℕ → Blocks) (ps : List ℕ) (js : List Job) (jobs : Store) (b : SBuf)
    → IsQueue word b ps
    → Stored jobs ps js
    → b.front + length ps < 2 ^ 31
    → (c : SBuf) × IsQueue word c []
      × ((s : Server)
          → run_jobs word blocks (length ps) jobs b s
            ≡ worked (all_freed ps jobs) c (handle_all blocks js s))
unfolding run_jobs handle_all
run_jobs-worked word blocks [] [] jobs b queue stored small = (b, queue, λ s. refl)
run_jobs-worked word blocks [] (j ∷ js) jobs b queue stored small = absurd stored
run_jobs-worked word blocks (p ∷ ps) [] jobs b queue stored small = absurd stored
run_jobs-worked word blocks (p ∷ ps) (j ∷ js) jobs b queue (given, at, distinct, stored) small =
    let (b', takes, left, _, next) = sbuf_remove-cons word p b ps queue (omega (arith, small)) in
    let (c, empty, go) =
      run_jobs-worked word blocks ps js (free_job p jobs) b' left
        (Stored-free jobs p ps js distinct stored) (omega (arith, next, small)) in
    (
      c,
      empty,
      λ s.
          rw (run_jobs, takes, given, at, sym (length-Stored jobs ps js stored))
            (on_return-worked (process_job (blocks (length ps)) j s) _ _ _ c go),
    )

-- A thread of `run_jobs`, on a buffer that is a queue of allocated jobs in slots within its block, in
-- as many rounds as the queue has jobs and with the count in the range of `int`: it waits for nothing at the buffer,
-- processes the jobs in the order in which they stand in the queue, each once, frees each, and leaves
-- the queue empty; the first job that stops ends it.
pub run_jobs-handle_all :
    (word : ℕ) (blocks : ℕ → Blocks) (ps : List ℕ) (js : List Job) (jobs : Store) (b : SBuf)
    (s : Server)
    → IsQueue word b ps
    → Stored jobs ps js
    → b.front + length ps < 2 ^ 31
    → (c : SBuf) × IsQueue word c []
      × (run_jobs word blocks (length ps) jobs b s
          ≡ worked (all_freed ps jobs) c (handle_all blocks js s))
run_jobs-handle_all word blocks ps js jobs b s queue stored small =
    let (c, empty, go) = run_jobs-worked word blocks ps js jobs b queue stored small in
    (c, empty, go s)
