-- ===== src/Server/Protocol.antt =====
-- The message types of include/protocol.h and the header with which each message is sent.
use zbid.Base.{ℕ, ℤ, Text}

-- `enum msg_types`.
pub data MsgType : Type 0 where
  ok login logout eusrlgdin ewrngpwd ancreate anclosed anlist anwatch anleave anbid : MsgType
  anupdate eanfull eannotfound eandenied ebidlow einvalidarg usrlist usrwins usrsales : MsgType
  usrblnc eserv : MsgType

-- The number that stands for a message type on the wire.
unfoldable pub code : MsgType → ℕ
code MsgType.ok = 0
code MsgType.login = 0x10
code MsgType.logout = 0x11
code MsgType.eusrlgdin = 0x1a
code MsgType.ewrngpwd = 0x1b
code MsgType.ancreate = 0x20
code MsgType.anclosed = 0x22
code MsgType.anlist = 0x23
code MsgType.anwatch = 0x24
code MsgType.anleave = 0x25
code MsgType.anbid = 0x26
code MsgType.anupdate = 0x27
code MsgType.eanfull = 0x2b
code MsgType.eannotfound = 0x2c
code MsgType.eandenied = 0x2d
code MsgType.ebidlow = 0x2e
code MsgType.einvalidarg = 0x2f
code MsgType.usrlist = 0x32
code MsgType.usrwins = 0x33
code MsgType.usrsales = 0x34
code MsgType.usrblnc = 0x35
code MsgType.eserv = 0xff

-- One call `wr_msg(fd, header, msgbuf)`, with the two fields of the `petr_header`. Where `msg_len`
-- is 0 the buffer is not part of the message, and `msgbuf` is empty here.
pub record Message : Type 0 where
  pub fd : ℤ
  pub msg_type : MsgType
  pub msg_len : ℕ
  pub msgbuf : Text
