-- ===== src/Examples/Jobs.antt =====
-- The buffer of jobs of the server.
use zbid.Base.{◌+◌, ◌≡◌, refl, some, none, [], ◌∷◌, arith, pos, ◌==◌, if◌then◌else◌}
use zbid.Server.Protocol.{MsgType}
use zbid.Jobs.Process.{Job}
use zbid.Jobs.Requests.{job_of}
use zbid.Jobs.Worker.{Store, run_jobs}
use zbid.Jobs.Worker.Order.{all_freed, worked, handle_all, run_jobs-handle_all}
use zbid.Examples.Demo.{demo}
use zbid.Examples.Requests.{blocks}
use zbid.Jobs.Buffer.{SBuf, done, stop, outside, sbuf_insert, sbuf_remove, sbuf_init}
use zbid.Jobs.Buffer.Queue.{IsQueue, sbuf_insert-append, sbuf_remove-cons, sbuf_insert-outside}

-- The buffer of the server, with pointers of eight bytes: two items have gone, one is left.
abbrev turned : SBuf
turned = record {
  buf = λ i. i + 100;
  bytes = 4096;
  n = 1024;
  front = 2;
  rear = 3;
  mutex = 1;
  slots = 1023;
  items = 1;
}

turned-IsQueue : IsQueue 8 turned (103 ∷ [])
turned-IsQueue = record {
  holds = (refl, tt);
  last = refl;
  unlocked = refl;
  room = refl;
  filled = refl;
  inside = (omega arith, tt);
}

sbuf_insert-append_example :
    (t : SBuf) × (sbuf_insert 8 77 turned ≡ done tt t) × IsQueue 8 t (103 ∷ 77 ∷ []) × (t.n ≡ 1024)
sbuf_insert-append_example =
    sbuf_insert-append 8 77 turned (103 ∷ []) turned-IsQueue (omega arith) (omega arith)
      (omega arith)

sbuf_remove-cons_example :
    (t : SBuf) × (sbuf_remove 8 turned ≡ done 103 t) × IsQueue 8 t [] × (t.n ≡ 1024) × (t.front ≡ 3)
sbuf_remove-cons_example = sbuf_remove-cons 8 103 turned [] turned-IsQueue (omega arith)

-- 511 jobs have been inserted and removed.
abbrev half : SBuf
half = record {
  buf = λ _. 0;
  bytes = 4096;
  n = 1024;
  front = 511;
  rear = 511;
  mutex = 1;
  slots = 1024;
  items = 0;
}

half_block : half.bytes ≡ (sbuf_init half.n).bytes
unfolding sbuf_init
half_block = refl

sbuf_insert-outside_example : sbuf_insert 8 77 half ≡ stop outside
sbuf_insert-outside_example =
    sbuf_insert-outside 77 1023 half refl refl (omega arith) (omega arith) half_block (omega arith)

-- Two requests of bob, at the addresses 103 and 104 of the buffer.
abbrev waiting : SBuf
waiting = record turned { rear = 4; slots = 1022; items = 2 }

waiting-IsQueue : IsQueue 8 waiting (103 ∷ 104 ∷ [])
waiting-IsQueue = record {
  holds = (refl, (refl, tt));
  last = refl;
  unlocked = refl;
  room = refl;
  filled = refl;
  inside = (omega arith, (omega arith, tt));
}

abbrev list_auctions : Job
list_auctions = job_of (pos 5) (pos 1) MsgType.anlist []

abbrev list_wins : Job
list_wins = job_of (pos 5) (pos 1) MsgType.usrwins []

abbrev allocated : Store
allocated p = if p == 103 then some list_auctions else if p == 104 then some list_wins else none

run_jobs-handle_all_example :
    (c : SBuf) × IsQueue 8 c []
    × (run_jobs 8 (λ _. blocks) 2 allocated waiting demo
        ≡ worked
            (all_freed (103 ∷ 104 ∷ []) allocated)
            c
            (handle_all (λ _. blocks) (list_auctions ∷ list_wins ∷ []) demo))
run_jobs-handle_all_example =
    run_jobs-handle_all 8 (λ _. blocks) (103 ∷ 104 ∷ []) (list_auctions ∷ list_wins ∷ []) allocated
      waiting demo waiting-IsQueue (refl, refl, (refl, tt), (refl, refl, tt, tt)) (omega arith)
