-- ===== src/System/House/Commands.antt =====
-- What a connection, a job or a tick orders the house to do: the messages of src/finalsample.c as
-- commands.
use zbid.Base.{Option, none, some, List, [], ◌∷◌, ◌&&◌, ◌==◌, ℕ, ℤ, pos, eq_ℤ, Text, if◌then◌else◌}
use zbid.Server.{CharPtr, User, Auction, Server}
use zbid.Server.Protocol.{MsgType, code}
use zbid.Jobs.Text.{strtok, parse_int}
use zbid.Jobs.Block.{c_string, filled}
use zbid.Jobs.Process.{Blocks}
use zbid.Jobs.Accept.{Hello}
use zbid.System.{Event, hello, job, tick}
use zbid.System.House
use zbid.System.House.{House, open_account, offer, watch, leave, strike}

pub data Command : Type 0 where
  nothing strikes : Command
  opens : CharPtr → Command
  offers : Auction → CharPtr → CharPtr → ℤ → ℤ → Command
  watches leaves : CharPtr → ℤ → Command
  bids : CharPtr → ℤ → ℤ → Command

abbrev pub obey : Command → House → House
obey nothing h = h
obey strikes h = strike h
obey (opens w) h = open_account w h
obey (offers block creator none duration price) h = h
obey (offers block creator (some item) duration price) h = offer block creator item duration price h
obey (watches w id) h = watch w id h
obey (leaves w id) h = leave w id h
obey (bids none id amount) h = h
obey (bids (some w) id amount) h = House.bid w id amount h

-- The first user with the descriptor, and the last, who becomes the creator of an auction.
abbrev pub client_name : ℤ → List User → CharPtr
client_name fd [] = none
client_name fd (u ∷ us) = if eq_ℤ u.fd fd then u.username else client_name fd us

abbrev pub creator_of : ℤ → CharPtr → List User → CharPtr
creator_of fd c [] = c
creator_of fd c (u ∷ us) = creator_of fd (if eq_ℤ u.fd fd then u.username else c) us

-- A field of a message as a number.
abbrev pub int_of : CharPtr → ℤ
int_of none = pos 0
int_of (some t) = parse_int t.text

-- The fields of the message of a client.
abbrev pub create_order : Server → Blocks → ℤ → Text → Command
create_order s b fd text =
    let (item, p, rest) = strtok b.message text in
    let (duration, q, rest) = strtok p rest in
    let (price, _, _) = strtok q rest in
    offers b.auction_block (creator_of fd b.auction_block.creator s.users) item (int_of duration)
      (int_of price)

abbrev pub bid_order : Server → Blocks → ℤ → Text → Command
bid_order s b fd text =
    let (id, p, rest) = strtok b.message text in
    let (amount, _, _) = strtok p rest in bids (client_name fd s.users) (int_of id) (int_of amount)

-- The other types of message ask, or do nothing.
abbrev pub type_order : Server → Blocks → ℤ → ℕ → Text → Command
type_order s b fd type text =
    if type == code MsgType.ancreate
    then create_order s b fd text
    else if type == code MsgType.anwatch
    then watches (client_name fd s.users) (parse_int text)
    else if type == code MsgType.anleave
    then leaves (client_name fd s.users) (parse_int text)
    else if type == code MsgType.anbid
    then bid_order s b fd text
    else nothing

-- The name in a LOGIN, which orders nothing until it is read.
abbrev pub name_in : Hello → Option Text → CharPtr
name_in m none = none
name_in m (some text) = (strtok m.login_buffer text).0

abbrev pub hello_order : Hello → Command
hello_order m =
    if eq_ℤ m.result (pos 0) && ((m.msg_type == code MsgType.login) && m.got_through)
    then opens (name_in m (c_string (filled m.msg_len m.received m.slack)))
    else nothing

abbrev pub order : Server → Event → Command
order s (hello fd m) = hello_order m
order s (job b j) = type_order s b j.clientfd j.job_msg_type j.job_buffer
order s tick = strikes
