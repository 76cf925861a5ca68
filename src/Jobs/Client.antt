-- ===== src/Jobs/Client.antt =====
-- `process_client` of src/finalsample.c: a client's messages are copied to jobs.
pub mod Copy
use zbid.Base.{
  ℕ, ◌+◌, ◌-◌, ◌^◌, ◌==◌, Bool, not, Option, none, some, List, [], ◌∷◌, length, leb, ltb, ℤ, pos,
  negsuc, Text, if◌then◌else◌,
}
use zbid.Server.Protocol.{MsgType, code}
use zbid.Jobs.Block.{c_string, filled}
use zbid.Jobs.Process.{Job}

-- One round: what the header holds after `rd_msgheader`, whose result is not looked at; whether
-- `buffer_lock` comes free to the thread, and whether the `read` that it makes with it returns; the
-- bytes that `read` got (`none` is an error), what the block of `calloc` has behind `msg_len` bytes,
-- and how many bytes `malloc` gives beyond those that it is asked for.
pub record Packet : Type 0 where
  pub msg_type : ℕ
  pub msg_len : ℕ
  pub gets_lock : Bool
  pub read_returns : Bool
  pub received : Option (List ℕ)
  pub slack : List ℕ
  pub spare : ℕ

-- An `uint32_t` as an `int`.
unfoldable pub to_int : ℕ → ℤ
to_int n = if ltb n (2 ^ 31) then pos n else negsuc (2 ^ 32 - 1 - n)

-- How far the thread has come: it waits for the next message, for `buffer_lock`, or in `read` with
-- `buffer_lock` in hand, has returned after LOGOUT, or has read or written outside a block.
pub data Ended : Type 0 where
  waiting at_lock in_read returned outside : Ended

-- `sizeof(header.msg_len)`, of an `uint32_t`.
abbrev pub sizeof_msg_len : ℕ
sizeof_msg_len = 4

-- `newJob->jobBuffer = malloc(sizeof(header.msg_len))` and `strcpy(newJob->jobBuffer, job_buffer)`.
unfoldable pub copy : ℕ → Option Text → Option Text
copy spare none = none
copy spare (some t) = if leb (length t + 1) (sizeof_msg_len + spare) then some t else none

-- The job of one message.
abbrev pub job_for : ℤ → Packet → Text → Job
job_for client_fd m text = record {
  job_buffer = text;
  job_msg_type = m.msg_type;
  job_msg_length = to_int m.msg_len;
  clientfd = client_fd;
}

abbrev pub add_job : Job → List Job × Ended → List Job × Ended
add_job job (jobs, ended) = (job ∷ jobs, ended)

-- The jobs handed to `sbuf_insert`, in order, and where the thread ends.
unfoldable pub process_client : ℤ → List Packet → List Job × Ended
unfolding copy c_string code to_int
process_client client_fd [] = ([], waiting)
process_client client_fd (m ∷ ms) =
    let rest = process_client client_fd ms in
    if m.msg_type == 0
    then rest
    else if not m.gets_lock
    then ([], at_lock)
    else if not m.read_returns
    then ([], in_read)
    else elim m.received [
      | none ↦ rest
      | some bytes ↦ elim (copy m.spare (c_string (filled m.msg_len bytes m.slack))) [
        | none ↦ ([], outside)
        | some text ↦
            if m.msg_type == code MsgType.logout
            then (job_for client_fd m text ∷ [], returned)
            else add_job (job_for client_fd m text) rest
      ]
    ]
