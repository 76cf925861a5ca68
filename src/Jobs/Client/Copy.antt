-- ===== src/Jobs/Client/Copy.antt =====
-- What `process_client` of src/finalsample.c makes of messages that a client sends with their NUL.
use zbid.Base.{
  ℕ, ◌+◌, ◌-◌, ◌^◌, ◌≤◌, ◌<◌, ◌≡◌, ◌≢◌, refl, suc, sym, subst, true, if◌then◌else◌, ◌∙◌, ap, false,
  none, some, List, [], ◌∷◌, ◌++◌, append_assoc, arith, ◌==◌, length, length-append, ℤ, pos, Text,
  All, inl, inr, Bool-cases, Option-cases,
}
use zbid.Server.Protocol.{MsgType, code}
use zbid.Jobs.Block.{c_string, filled}
use zbid.Jobs.Process.{Job}
use zbid.Jobs.Requests.{job_of}
use zbid.Jobs.Client.{
  sizeof_msg_len, job_for, Packet, to_int, copy, Ended, returned, outside, add_job, process_client,
}

-- No byte is NUL.
abbrev pub IsString : Text → Type 0
IsString = All (λ c. (c == 0) ≡ false)

pub c_string-append : (t rest : List ℕ) → IsString t → c_string (t ++ 0 ∷ rest) ≡ some t
unfolding c_string
c_string-append [] rest plain = refl
c_string-append (c ∷ cs) rest (pc, plain) = rw (pc, c_string-append cs rest plain) refl

-- A text with its NUL, as a client sends it.
abbrev pub sent_as : MsgType → Text → List ℕ → ℕ → Packet
sent_as type t slack spare = record {
  msg_type = code type;
  msg_len = length t + 1;
  received = some (t ++ 0 ∷ []);
  slack = slack;
  gets_lock = true;
  read_returns = true;
  spare = spare;
}

filled-whole : (t slack : List ℕ) → filled (length t + 1) (t ++ 0 ∷ []) slack ≡ t ++ 0 ∷ slack
filled-whole t slack =
    let whole : length t + 1 - length (t ++ 0 ∷ []) ≡ 0 =
      (omega (arith, length-append t (0 ∷ []))) in
    rw whole (append_assoc t (0 ∷ []) slack)

to_int-small : (n : ℕ) → n < 2 ^ 31 → to_int n ≡ pos n
unfolding to_int
to_int-small n small = ground arith

copy-fits :
    (spare : ℕ) (t : Text) → length t + 1 ≤ sizeof_msg_len + spare → copy spare (some t) ≡ some t
unfolding copy
copy-fits spare t fits = ground arith

copy-full : (spare : ℕ) (t : Text) → 4 + spare ≤ length t → copy spare (some t) ≡ none
unfolding copy
copy-full spare t full = ground arith

code_ne-ok : (type : MsgType) → type ≢ MsgType.ok → (code type == 0) ≡ false
unfolding code
code_ne-ok MsgType.ok talks = absurd (talks refl)
code_ne-ok type talks = refl

code_ne-logout :
    (type : MsgType) → type ≢ MsgType.logout → (code type == code MsgType.logout) ≡ false
unfolding code
code_ne-logout MsgType.logout stays = absurd (stays refl)
code_ne-logout type stays = refl

process_client-copied :
    (client_fd : ℤ) (type : MsgType) (t slack : Text) (spare : ℕ) (ms : List Packet)
    → IsString t
    → type ≢ MsgType.ok
    → type ≢ MsgType.logout
    → length t + 1 ≤ sizeof_msg_len + spare
    → process_client client_fd (sent_as type t slack spare ∷ ms)
      ≡ add_job (job_for client_fd (sent_as type t slack spare) t) (process_client client_fd ms)
unfolding process_client
process_client-copied client_fd type t slack spare ms plain talks stays fits =
    let block : c_string (filled (length t + 1) (t ++ 0 ∷ []) slack) ≡ some t =
      ap c_string (filled-whole t slack) ∙ c_string-append t slack plain in
    rw (code_ne-ok type talks, block, copy-fits spare t fits, code_ne-logout type stays) refl

-- A text without NUL that fits with its NUL in the four bytes of `sizeof(header.msg_len)` and those that
-- `malloc` gives beyond, and in an `int`, sent with its NUL under a type other than OK and LOGOUT by a
-- client whose thread gets `buffer_lock`, is copied to a job of its own, with the same type, length and text.
pub process_client-sent :
    (client_fd : ℤ) (type : MsgType) (t slack : Text) (spare : ℕ) (ms : List Packet)
    → IsString t
    → type ≢ MsgType.ok
    → type ≢ MsgType.logout
    → length t + 1 ≤ sizeof_msg_len + spare
    → length t + 1 < 2 ^ 31
    → process_client client_fd (sent_as type t slack spare ∷ ms)
      ≡ add_job (job_of client_fd (pos (length t + 1)) type t) (process_client client_fd ms)
process_client-sent client_fd type t slack spare ms plain talks stays fits small =
    process_client-copied client_fd type t slack spare ms plain talks stays fits
    ∙ rw (to_int-small (length t + 1) small) refl

-- What a client sends before: texts that are copied.
pub record IsCopied (m : Packet) : Type 0 where
  pub type : MsgType
  pub text : Text
  pub slack : Text
  pub spare : ℕ
  pub sent : m ≡ sent_as type text slack spare
  pub plain : IsString text
  pub talks : type ≢ MsgType.ok
  pub stays : type ≢ MsgType.logout
  pub fits : length text + 1 ≤ sizeof_msg_len + spare

-- Behind any number of messages that are copied, a client whose thread gets `buffer_lock` sends a text
-- without NUL with its NUL, and its length in the header, under a type other than OK. Where the text
-- has as many bytes as `sizeof(header.msg_len)`, four, and those that `malloc` gives beyond what it is
-- asked for, or more, its copy is written past the end of the block, and only the messages before it
-- have come to be jobs.
pub process_client-outside :
    (client_fd : ℤ) (before : List Packet) (type : MsgType) (t slack : Text) (spare : ℕ)
    (ms : List Packet)
    → All IsCopied before
    → IsString t
    → type ≢ MsgType.ok
    → 4 + spare ≤ length t
    → let (jobs, ended) = process_client client_fd (before ++ sent_as type t slack spare ∷ ms) in
      (length jobs ≡ length before) × (ended ≡ outside)
unfolding process_client
process_client-outside client_fd [] type t slack spare ms copied plain talks full =
    let block : c_string (filled (length t + 1) (t ++ 0 ∷ []) slack) ≡ some t =
      ap c_string (filled-whole t slack) ∙ c_string-append t slack plain in
    rw (code_ne-ok type talks, block, copy-full spare t full) (refl, refl)
process_client-outside client_fd (m ∷ before) type t slack spare ms (c, copied) plain talks full =
    let (counted, ends) =
      process_client-outside client_fd before type t slack spare ms copied plain talks full in
    subst
      (λ x.
        let (jobs, ended) =
          process_client client_fd (x ∷ before ++ sent_as type t slack spare ∷ ms) in
        (length jobs ≡ suc (length before)) × (ended ≡ outside))
      (sym c.sent)
      (rw
        (process_client-copied client_fd c.type c.text c.slack c.spare
          (before ++ sent_as type t slack spare ∷ ms) c.plain c.talks c.stays c.fits)
        (ap suc counted, ends))

-- The last of a thread's jobs is LOGOUT, if the thread has returned, and no other is.
abbrev pub IsOther : Job → Type 0
IsOther job =
    ((job.job_msg_type == 0) ≡ false) × ((job.job_msg_type == code MsgType.logout) ≡ false)

pub data IsSession : List Job → Ended → Type 0 where
  open_end : {ended : Ended} → ended ≢ returned → IsSession [] ended
  left : {job : Job} → job.job_msg_type ≡ code MsgType.logout → IsSession (job ∷ []) returned
  worked :
      {job : Job} {jobs : List Job} {ended : Ended}
      → IsOther job
      → IsSession jobs ended
      → IsSession (job ∷ jobs) ended

-- A message that is read, or not.
read-IsSession :
    (client_fd : ℤ) (m : Packet) (ms : List Packet)
    → (m.msg_type == 0) ≡ false
    → (let (jobs, ended) = process_client client_fd ms in IsSession jobs ended)
    → let r : List Job × Ended = (elim m.received [
      | none ↦ process_client client_fd ms
      | some bytes ↦ elim (copy m.spare (c_string (filled m.msg_len bytes m.slack))) [
        | none ↦ ([], outside)
        | some text ↦
            if m.msg_type == code MsgType.logout
            then (job_for client_fd m text ∷ [], returned)
            else add_job (job_for client_fd m text) (process_client client_fd ms)
      ]
    ]) in
      IsSession r.0 r.1
read-IsSession client_fd m ms talks later = elim (Option-cases m.received) [
  | inl failed ↦ rw failed later
  | inr (bytes, came) ↦
      elim (Option-cases (copy m.spare (c_string (filled m.msg_len bytes m.slack)))) [
        | inl over ↦ rw (came, over) (open_end (cc))
        | inr (text, copied) ↦ elim (Bool-cases (m.msg_type == code MsgType.logout)) [
          | inl leaves ↦ rw (came, copied, leaves) (left (ground (arith, leaves)))
          | inr stays ↦ rw (came, copied, stays) (worked (talks, stays) later)
        ]
      ]
]

-- Whatever the client sends, its thread makes no job of a message of type 0, hands a LOGOUT to the
-- buffer as its last job and then returns, and returns only so.
pub process_client-IsSession :
    (client_fd : ℤ) (ms : List Packet)
    → let (jobs, ended) = process_client client_fd ms in IsSession jobs ended
unfolding process_client
process_client-IsSession client_fd [] = open_end (cc)
process_client-IsSession client_fd (m ∷ ms) =
    let later = process_client-IsSession client_fd ms in
    elim (Bool-cases (m.msg_type == 0)) [
      | inl skipped ↦ rw skipped later
      | inr talks ↦ elim (Bool-cases m.gets_lock) [
        | inr kept_out ↦ rw (talks, kept_out) (open_end (cc))
        | inl locked ↦ elim (Bool-cases m.read_returns) [
          | inr reads ↦ rw (talks, locked, reads) (open_end (cc))
          | inl came_back ↦
              rw (talks, locked, came_back) (read-IsSession client_fd m ms talks later)
        ]
      ]
    ]
