-- ===== src/Reports/Lines.antt =====
-- What `listAuctions` of src/helpers.c writes, as a text: one line for each auction.
pub mod Bounds
use zbid.Base.{
  Bool-cases, inl, inr, ◌≡◌, refl, ◌∙◌, ap, sym, some, List, [], ◌∷◌, ◌++◌, append-nil, Text, ℤ,
  leb, ◌+◌, length, if◌then◌else◌,
}
use zbid.Server.{Address, Heap, Auction, Server, CString}
use zbid.Server.Protocol.{MsgType}
use zbid.Server.Print.{print_int, semicolon, newline}
use zbid.Server.Monad.{M, halt, strcat, and_then, done, overrun, reply_with, load_auction}
use zbid.Server.Monad.Strcat.{
  strcat-last, strcats, join, strcats-join, strcat_cong, and_then-done, strcat-fits, strcat-full,
}
use zbid.Reports.Listing.{auction_info, list_loop, list_reply, list_auctions}

abbrev pub line : Auction → Text → Text
line a name = join (print_int a.id) (
    semicolon
    ∷ name
    ∷ semicolon
    ∷ print_int a.bin_price
    ∷ semicolon
    ∷ print_int a.number_of_watchers
    ∷ semicolon
    ∷ print_int a.bid
    ∷ semicolon
    ∷ print_int a.duration
    ∷ newline
    ∷ [])

auction_info-line :
    (a : Auction) (n : CString) (str : Text) (s : Server)
    → a.name ≡ some n
    → auction_info a str s ≡ strcat str (line a n.text) s
unfolding auction_info strcats
auction_info-line a n str s named = rw named (
    strcats-join (print_int a.id)
      (semicolon
        ∷ n.text
        ∷ semicolon
        ∷ print_int a.bin_price
        ∷ semicolon
        ∷ print_int a.number_of_watchers
        ∷ semicolon
        ∷ print_int a.bid
        ∷ semicolon
        ∷ print_int a.duration
        ∷ newline
        ∷ [])
      str s)

-- The lines of the auctions at the addresses, one behind the other.
pub data Lines (h : Heap) : List Address → Text → Type 0 where
  no_lines : Lines h [] []
  one_line :
      {p : Address} {ps : List Address} {a : Auction} {n : CString} {rest : Text}
      → h p ≡ some a
      → a.name ≡ some n
      → Lines h ps rest
      → Lines h (p ∷ ps) (line a n.text ++ rest)

list_loop-cons :
    (p : Address) (ps : List Address) (a : Auction) (n : CString) (b : Text) (s : Server)
    → s.heap p ≡ some a
    → a.name ≡ some n
    → list_loop (p ∷ ps) b s ≡ and_then (strcat b (line a n.text) s) (list_loop ps)
unfolding list_loop load_auction
list_loop-cons p ps a n b s here named =
    rw here (ap (λ r. and_then r (list_loop ps)) (auction_info-line a n b s named))

list_loop-Lines :
    (s : Server) {ps : List Address} {text : Text} (x buf : Text)
    → Lines s.heap ps text
    → and_then (strcat buf x s) (list_loop ps) ≡ strcat buf (x ++ text) s
unfolding list_loop
list_loop-Lines s x buf no_lines =
    ap (and_then (strcat buf x s)) (λ i b t. done b t)
    ∙ and_then-done (strcat buf x s)
    ∙ ap (λ y. strcat buf y s) (sym (append-nil x))
list_loop-Lines s x buf (one_line {p} {ps} {a} {n} {rest} here named l) =
    strcat_cong (list_loop (p ∷ ps)) (λ b. strcat b (line a n.text ++ rest)) buf x s
      (λ b. list_loop-cons p ps a n b s here named ∙ list_loop-Lines s (line a n.text) b l)
    ∙ strcat-last buf x (line a n.text ++ rest) s

answer_with :
    (text : Text) (s : Server) (k : Text → M (Unit {0}))
    → and_then (strcat [] text s) k
      ≡ (if leb (length text + 1) 1024 then k text else halt overrun) s
answer_with text s k = elim (Bool-cases (leb (length text + 1) 1024)) [
  | inl fits ↦ rw (strcat-fits [] text s fits, fits) refl
  | inr full ↦ rw (strcat-full [] text s full, full) refl
]

-- With one auction or more, `listAuctions` answers with the lines of all of them, in the order of
-- the list; it stops at a full buffer exactly where they and the NUL do not fit in 1024 bytes.
pub list_auctions-Lines :
    (client_fd : ℤ) (s : Server) (p : Address) (ps : List Address) (text : Text)
    → s.auctions ≡ p ∷ ps
    → Lines s.heap (p ∷ ps) text
    → list_auctions client_fd s
      ≡ (if leb (length text + 1) 1024
            then reply_with client_fd MsgType.anlist text
            else halt overrun)
          s
unfolding list_auctions list_reply
list_auctions-Lines client_fd s p ps _ listed (one_line {a} {n} {rest} here named l) =
    ap (λ qs. list_reply client_fd qs s) listed
    ∙ ap (λ r. and_then r (reply_with client_fd MsgType.anlist))
        (list_loop-cons p ps a n [] s here named ∙ list_loop-Lines s (line a n.text) [] l)
    ∙ answer_with (line a n.text ++ rest) s (reply_with client_fd MsgType.anlist)
