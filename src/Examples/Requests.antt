-- ===== src/Examples/Requests.antt =====
-- Messages and jobs of the demo's clients.
use zbid.Base.{◌+◌, ◌≡◌, refl, true, some, [], ◌∷◌, arith, pos, fits_int, leb, length, Text}
use zbid.Server.Protocol.{MsgType}
use zbid.Server.Print.{print_int}
use zbid.Server.Monad.{auctions_mutex}
use zbid.Auctions.Create.{create_auction}
use zbid.Jobs.Text.Tokens.{pointer}
use zbid.Jobs.Process.{Blocks, locked, process_job}
use zbid.Jobs.Requests.{job_of, create_text, two_fields, process_job-create}
use zbid.Jobs.Client.{Packet, outside, add_job, process_client}
use zbid.Jobs.Client.Copy.{
  IsCopied, sent_as, process_client-sent, process_client-outside, IsSession,
  process_client-IsSession,
}
use zbid.Examples.Demo.{fresh_auction, demo}

abbrev pub blocks : Blocks
blocks = record {
  message = 1000;
  usable = λ _. some 24;
  auction = 200;
  auction_block = fresh_auction;
  stack = [];
}

abbrev chair : Text
chair = b'c' ∷ b'h' ∷ []

three_fits : fits_int (pos 3) ≡ true
unfolding fits_int
three_fits = refl

forty_fits : fits_int (pos 40) ≡ true
unfolding fits_int
forty_fits = refl

one_fits : fits_int (pos 1) ≡ true
unfolding fits_int
one_fits = refl

create_fits : leb (length (create_text chair (pos 3) (pos 40)) + 1) 24 ≡ true
unfolding print_int
create_fits = refl

process_job-create_example :
    process_job blocks
      (job_of (pos 5) (pos 10) MsgType.ancreate (create_text chair (pos 3) (pos 40)))
      demo
    ≡ locked auctions_mutex
        (create_auction 200 fresh_auction (pos 5) (pointer 1000 chair) (pos 3) (pos 40))
        demo
process_job-create_example =
    process_job-create blocks (pos 5) (pos 10) 24 demo refl chair (pos 3) (pos 40)
      (refl, (refl, tt)) three_fits forty_fits create_fits

bid_fits : leb (length (two_fields (print_int (pos 1)) (print_int (pos 40))) + 1) 24 ≡ true
unfolding print_int
bid_fits = refl

process_client-sent_example :
    process_client (pos 5) (sent_as MsgType.anwatch (b'1' ∷ []) [] 20 ∷ [])
    ≡ add_job (job_of (pos 5) (pos 2) MsgType.anwatch (b'1' ∷ [])) (process_client (pos 5) [])
process_client-sent_example =
    process_client-sent (pos 5) MsgType.anwatch (b'1' ∷ []) [] 20 [] (refl, tt) (cc) (cc)
      (omega arith) (omega arith)

-- A request to watch auction 1, which is copied, and one with an id of four digits, which is not, where
-- `malloc` gives no byte more than it is asked for.
abbrev short_request : Packet
short_request = sent_as MsgType.anwatch (b'1' ∷ []) [] 20

short-IsCopied : IsCopied short_request
short-IsCopied = record {
  type = MsgType.anwatch;
  text = b'1' ∷ [];
  slack = [];
  spare = 20;
  sent = refl;
  plain = (refl, tt);
  talks = cc;
  stays = cc;
  fits = omega arith;
}

abbrev long_id : Text
long_id = b'1' ∷ b'2' ∷ b'3' ∷ b'4' ∷ []

process_client-outside_example :
    let (jobs, ended) =
      process_client
        (pos 5)
        (short_request ∷ sent_as MsgType.anwatch long_id [] 0 ∷ short_request ∷ []) in
    (length jobs ≡ 1) × (ended ≡ outside)
process_client-outside_example =
    process_client-outside (pos 5) (short_request ∷ []) MsgType.anwatch long_id [] 0
      (short_request ∷ []) (short-IsCopied, tt) (refl, (refl, (refl, (refl, tt)))) (cc)
      (omega arith)

process_client-IsSession_example :
    let (jobs, ended) = process_client (pos 5) (sent_as MsgType.logout [] [] 20 ∷ []) in
    IsSession jobs ended
process_client-IsSession_example =
    process_client-IsSession (pos 5) (sent_as MsgType.logout [] [] 20 ∷ [])
