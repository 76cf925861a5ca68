-- ===== src/Invariant/Listing.antt =====
-- `listAuctions` in a valid state.
use zbid.Base.{
  ◌≡◌, refl, ◌∙◌, true, false, subst, List, [], ◌∷◌, ◌++◌, Text, ℕ, ℤ, All, length, arith, ◌+◌, ◌*◌,
  ◌<◌, ◌≤◌, leb, if◌then◌else◌,
}
use zbid.Server.{CharPtr, Address, Heap, Server}
use zbid.Server.Protocol.{MsgType}
use zbid.Server.Monad.{done, stop, halt, overrun, wr_msg, reply_with}
use zbid.Reports.Listing.{list_auctions}
use zbid.Reports.Lines.{Lines, no_lines, one_line, list_auctions-Lines}
use zbid.Reports.Lines.Bounds.{IsNamedWithin, length-Lines, Lines-longer}
use zbid.Invariant.{Listed, IsValid}

Listed-Lines :
    (h : Heap) (ns : List CharPtr) (ps : List Address)
    → All (Listed h ns) ps
    → (text : Text) × Lines h ps text
Listed-Lines h ns [] listed = ([], no_lines)
Listed-Lines h ns (p ∷ ps) ((a, at, sound), listed) =
    let (text, l) = Listed-Lines h ns ps listed in
    let (n, named) = sound.named in (_, one_line at named l)

-- In a valid state with one auction or more, `listAuctions` answers with one line for each auction,
-- in the order of the list; it stops, at a full buffer, exactly where the lines and the NUL do not
-- fit in 1024 bytes.
list_auctions-answer :
    (client_fd : ℤ) (s : Server) (p : Address) (ps : List Address)
    → IsValid s
    → s.auctions ≡ p ∷ ps
    → (text : Text) × Lines s.heap (p ∷ ps) text
      × (list_auctions client_fd s
          ≡ (if leb (length text + 1) 1024
                then reply_with client_fd MsgType.anlist text
                else halt overrun)
              s)
list_auctions-answer client_fd s p ps v listed =
    let (text, l) =
      Listed-Lines s.heap _ (p ∷ ps) (subst (All (Listed s.heap _)) listed v.listed) in
    (text, l, list_auctions-Lines client_fd s p ps text listed l)

-- Where every listed auction has a name of `m` bytes at most and so many times 61 + m bytes are less
-- than 1024, `listAuctions` on a valid state returns: the client is sent one ANLIST with one line
-- for each auction, in the order of the list, and nothing else changes.
pub list_auctions-fits :
    (client_fd : ℤ) (m : ℕ) (s : Server) (p : Address) (ps : List Address)
    → IsValid s
    → s.auctions ≡ p ∷ ps
    → All (IsNamedWithin s.heap m) (p ∷ ps)
    → length (p ∷ ps) * (61 + m) < 1024
    → (text : Text) × Lines s.heap (p ∷ ps) text
      × (list_auctions client_fd s
          ≡ done tt (record s {
            sent =
                s.sent
                ++ record {
                  fd = client_fd;
                  msg_type = MsgType.anlist;
                  msg_len = length text + 1;
                  msgbuf = text;
                }
                  ∷ [];
          }))
unfolding reply_with wr_msg
list_auctions-fits client_fd m s p ps v listed within small =
    let (text, lines, answer) = list_auctions-answer client_fd s p ps v listed in
    let long = length-Lines s.heap m lines within in
    let fits : leb (length text + 1) 1024 ≡ true = (ground (arith, long, small)) in
    (text, lines, answer ∙ rw fits refl)

-- With 94 auctions or more, `listAuctions` on a valid state writes past the end of its buffer,
-- whatever the auctions are.
pub list_auctions-overrun :
    (client_fd : ℤ) (s : Server)
    → IsValid s
    → 94 ≤ length s.auctions
    → list_auctions client_fd s ≡ stop overrun
list_auctions-overrun client_fd s v many = go s.auctions refl many
  where
    go :
        (ps : List Address)
        → s.auctions ≡ ps
        → 94 ≤ length ps
        → list_auctions client_fd s ≡ stop overrun
    go [] listed many = absurd (omega (arith, many))
    go (p ∷ ps) listed many =
        let (text, lines, answer) = list_auctions-answer client_fd s p ps v listed in
        let long = Lines-longer s.heap lines in
        let full : leb (length text + 1) 1024 ≡ false = (ground (arith, long, many)) in
        answer ∙ rw full refl
