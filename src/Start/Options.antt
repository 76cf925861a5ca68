-- ===== src/Start/Options.antt =====
-- What the options of src/server.c come to.
use zbid.Base.{
  ℕ, ◌+◌, ◌≡◌, refl, true, false, none, some, List, [], ◌∷◌, ◌++◌, append-nil, length, leb, pos,
  eq_ℤ, fits_int, inr, All,
}
use zbid.Server.{CString, CharPtr, Server}
use zbid.Server.Monad.{done, stop, null_deref, buffer_size}
use zbid.Jobs.Text.{atoi, parse_int}
use zbid.Jobs.Buffer.{sbuf_init}
use zbid.Start.{Settings, initial, read_options, last_two, Launch, copy_name, main}

-- An option -t with a number.
abbrev pub IsInterval : ℕ × CharPtr → Type 0
IsInterval (opt, optarg) =
    (opt ≡ b't') × ((t : CString) × (optarg ≡ some t) × (fits_int (parse_int t.text) ≡ true))

-- Two job threads, and a ticker without an interval.
abbrev pub plain : CString → CString → Launch
plain port_arg file = record {
  job_threads = pos 2;
  tick_argument = none;
  port = parse_int port_arg.text;
  auction_file = some file;
  buffer = sbuf_init buffer_size;
}

-- The settings after options -t.
abbrev IsDefault : Settings → Type 0
IsDefault k = (k.j ≡ false) × (k.t ≡ false)

read_options-intervals :
    (opts rest : List (ℕ × CharPtr)) (k : Settings) (s : Server)
    → All IsInterval opts
    → IsDefault k
    → (l : Settings) × IsDefault l × (read_options (opts ++ rest) k s ≡ read_options rest l s)
unfolding read_options atoi
read_options-intervals [] rest k s all default = (k, default, refl)
read_options-intervals ((opt, optarg) ∷ opts) rest k s ((is_t, (t, given, fits)), all) default =
    let (l, default', same) =
      read_options-intervals opts rest (record k { num_tick = parse_int t.text }) s all default in
    (l, default', rw (is_t, given, fits) same)

launch :
    (opts : List (ℕ × CharPtr)) (argv : List CharPtr) (port_arg file : CString) (s : Server)
    → All IsInterval opts
    → last_two argv ≡ some (some port_arg, some file)
    → fits_int (parse_int port_arg.text) ≡ true
    → eq_ℤ (parse_int port_arg.text) (pos 0) ≡ false
    → leb (length file.text + 1) 100 ≡ true
    → main opts argv s ≡ done (inr (plain port_arg file)) s
unfolding main read_options atoi copy_name
launch opts argv port_arg file s all at fits nonzero short =
    let (l, (no_j, no_t), same) = read_options-intervals opts [] initial s all (refl, refl) in
    let read : read_options opts initial s ≡ done (inr l) s = (rw (append-nil opts) at same) in
    rw (read, at, fits, nonzero, short, no_j, no_t) refl

crash :
    (opts rest : List (ℕ × CharPtr)) (argv : List CharPtr) (s : Server)
    → All IsInterval opts
    → main (opts ++ (b'j', none) ∷ rest) argv s ≡ stop null_deref
unfolding main read_options atoi
crash opts rest argv s all =
    let (l, _, same) =
      read_options-intervals opts ((b'j', none) ∷ rest) initial s all (refl, refl) in
    rw same refl

-- Where every option is -t with an `int`, the argument before the last is an `int` other than 0 and
-- the last one, with its NUL, fits in 100 bytes, `main` comes to `run_server`: with two job threads,
-- and with a ticker thread that gets NULL, and so no interval, whatever -t has said. With an option
-- -j behind them, for which `getopt` gives no argument, `main` ends in `atoi(NULL)`.
pub main-intervals :
    (opts rest : List (ℕ × CharPtr)) (argv : List CharPtr) (port_arg file : CString) (s : Server)
    → All IsInterval opts
    → last_two argv ≡ some (some port_arg, some file)
    → fits_int (parse_int port_arg.text) ≡ true
    → eq_ℤ (parse_int port_arg.text) (pos 0) ≡ false
    → leb (length file.text + 1) 100 ≡ true
    → (main opts argv s ≡ done (inr (plain port_arg file)) s)
      × (main (opts ++ (b'j', none) ∷ rest) argv s ≡ stop null_deref)
main-intervals opts rest argv port_arg file s all at fits nonzero short =
    (launch opts argv port_arg file s all at fits nonzero short, crash opts rest argv s all)
