-- ===== src/Start.antt =====
-- `main` of src/server.c up to `run_server`: the options, the port, the file's name, and the threads
-- that it creates.
pub mod Options
use zbid.Base.{
  ℕ, ◌+◌, ◌==◌, Bool, true, false, Option, none, some, List, [], ◌∷◌, length, leb, ℤ, pos, eq_ℤ,
  ◌⊎◌, inl, inr, if◌then◌else◌,
}
use zbid.Server.{CharPtr}
use zbid.Server.Monad.{M, pure, halt, null_deref, overrun, ◌>>=◌, ◌>>◌, deref, buffer_size}
use zbid.Jobs.Text.{atoi}
use zbid.Jobs.Buffer.{SBuf, sbuf_init}

-- `j`, `t`, `numJobThreads` and `numTick`.
pub record Settings : Type 0 where
  pub j : Bool
  pub t : Bool
  pub num_job_threads : ℤ
  pub num_tick : ℤ

abbrev pub initial : Settings
initial = record { j = false; t = false; num_job_threads = pos 0; num_tick = pos 0 }

-- What `getopt(argc, argv, "hjt:")` gave, one option after the other: the option and `optarg`. The
-- result is the status of an `exit`, or the settings.
unfoldable pub read_options : List (ℕ × CharPtr) → Settings → M (ℤ ⊎ Settings)
unfolding atoi
read_options [] k = pure (inr k)
read_options ((opt, optarg) ∷ opts) k =
    if opt == b'h'
    then pure (inl (pos 0))
    else if opt == b'j'
    then (do n ← atoi optarg; read_options opts (record k { j = true; num_job_threads = n }))
    else if opt == b't'
    then (do n ← atoi optarg; read_options opts (record k { num_tick = n }))
    else pure (inl (pos 1))

-- `argv[argc - 2]` and `argv[argc - 1]`; before `argv[0]` there is nothing to read.
abbrev pub last_two : List CharPtr → Option (CharPtr × CharPtr)
last_two [] = none
last_two (a ∷ []) = none
last_two (a ∷ b ∷ []) = some (a, b)
last_two (a ∷ b ∷ c ∷ rest) = last_two (b ∷ c ∷ rest)

-- What `main` has made when it calls `run_server`: the rounds of the loop that creates threads, the
-- argument of `run_tick`, which may be NULL, and the rest.
pub record Launch : Type 0 where
  pub job_threads : ℤ
  pub tick_argument : Option ℤ
  pub port : ℤ
  pub auction_file : CharPtr
  pub buffer : SBuf

-- `strcpy(auctionFile, argv[argc - 1])` to 100 bytes.
unfoldable pub copy_name : CharPtr → M (Unit {0})
copy_name arg = do
  file ← deref arg
  if leb (length file.text + 1) 100 then pure tt else halt overrun

-- `main`; the first argument is what `getopt` gave.
unfoldable pub main : List (ℕ × CharPtr) → List CharPtr → M (ℤ ⊎ Launch)
unfolding read_options atoi copy_name sbuf_init
main opts argv = do
  settings ← read_options opts initial
  elim settings [
    | inl status ↦ pure (inl status)
    | inr k ↦ (do
      (port_arg, file_arg) ← deref (last_two argv)
      port ← atoi port_arg
      if eq_ℤ port (pos 0) then pure (inl (pos 1)) else (do
        copy_name file_arg
        pure (
            inr (record {
              job_threads = if k.j then k.num_job_threads else pos 2;
              tick_argument = if k.t then some k.num_tick else none;
              port = port;
              auction_file = file_arg;
              buffer = sbuf_init buffer_size;
            }))))
  ]
