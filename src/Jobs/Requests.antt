-- ===== src/Jobs/Requests.antt =====
-- `processJob` of src/finalsample.c on the messages that a client writes field by field.
use zbid.Base.{
  ◌⊎◌, inl, inr, ℕ, ◌+◌, ◌≡◌, refl, ◌∙◌, ap, true, some, ◌∷◌, ◌++◌, ℤ, fits_int, Text, length, leb,
}
use zbid.Server.{Server}
use zbid.Server.Protocol.{MsgType, code}
use zbid.Server.Print.{print_int}
use zbid.Server.Monad.{stop, null_deref, auctions_mutex}
use zbid.Auctions.Create.{create_auction}
use zbid.Auctions.Bid.{bid_auction}
use zbid.Jobs.Text.{atoi, parse_int}
use zbid.Jobs.Text.Number.{atoi-print_int}
use zbid.Jobs.Text.Tokens.{
  IsField, pointer, strtok-last, strtok-more, strtok_next-more, strtok_next-last, strtok_over,
  print_int-IsField,
}
use zbid.Jobs.Process.{
  Job, Blocks, locked, copy_message, create_job, bid_job, switch, process_job, whole,
}

-- A job with the text for a message type, in a block that is long enough.
abbrev pub job_of : ℤ → ℤ → MsgType → Text → Job
job_of client_fd len type text = record {
  job_buffer = text;
  job_msg_type = code type;
  job_msg_length = len;
  clientfd = client_fd;
}

-- The fields of a request, parted by "\r\n".
abbrev pub two_fields : Text → Text → Text
two_fields a b = a ++ 13 ∷ 10 ∷ b

abbrev pub create_text : Text → ℤ → ℤ → Text
create_text name duration price =
    two_fields name (two_fields (print_int duration) (print_int price))

module _ (b : Blocks) (client_fd len : ℤ) (room : ℕ) (s : Server)
    (given : b.usable len ≡ some room) where
  pub process_job-copied :
      (type : MsgType) (text : Text)
      → leb (length text + 1) room ≡ true
      → process_job b (job_of client_fd len type text) s ≡ switch b client_fd (code type) text s
  unfolding process_job copy_message
  process_job-copied type text fits = rw (given, whole text, fits) refl

  -- A request to create an auction, written field by field with a name that is not empty and has no
  -- "\r" or "\n" and a duration and a price in the range of `int`, in a job with a block long enough
  -- for it, is read back: the handler is called, between `P` and `V`, with the same name, duration
  -- and price.
  pub process_job-create :
      (name : Text) (duration price : ℤ)
      → IsField name
      → fits_int duration ≡ true
      → fits_int price ≡ true
      → leb (length (create_text name duration price) + 1) room ≡ true
      → process_job b (job_of client_fd len MsgType.ancreate (create_text name duration price)) s
        ≡ locked auctions_mutex
            (create_auction b.auction b.auction_block client_fd
              (pointer b.message name)
              duration
              price)
            s
  unfolding switch create_job code
  process_job-create name duration price field fits_duration fits_price fits =
      process_job-copied MsgType.ancreate _ fits
      ∙ rw
          (
            strtok-more b.message name (10 ∷ two_fields (print_int duration) (print_int price))
                field,
            strtok_next-more (b.message + length name + 1) (print_int duration)
                (10 ∷ print_int price) (print_int-IsField duration),
            atoi-print_int duration (b.message + length name + 1 + 1) s fits_duration,
            strtok_next-last (b.message + length name + 1 + 1 + length (print_int duration) + 1)
                (print_int price) (print_int-IsField price),
            atoi-print_int price
                (b.message + length name + 1 + 1 + length (print_int duration) + 1 + 1) s
                fits_price,
          )
          refl

  -- A bid, written as the id and the price, both in the range of `int`, in a job with a block long
  -- enough for it, is read back: the handler is called, between `P` and `V`, with the same id and
  -- price.
  process_job-bid :
      (auction_id bid : ℤ)
      → fits_int auction_id ≡ true
      → fits_int bid ≡ true
      → leb (length (two_fields (print_int auction_id) (print_int bid)) + 1) room ≡ true
      → process_job b
          (job_of client_fd len MsgType.anbid (two_fields (print_int auction_id) (print_int bid)))
          s
        ≡ locked auctions_mutex (bid_auction client_fd auction_id bid) s
  unfolding switch bid_job code
  process_job-bid auction_id bid fits_id fits_bid fits =
      process_job-copied MsgType.anbid _ fits
      ∙ rw
          (
            strtok-more b.message (print_int auction_id) (10 ∷ print_int bid)
                (print_int-IsField auction_id),
            atoi-print_int auction_id b.message s fits_id,
            strtok_next-last (b.message + length (print_int auction_id) + 1) (print_int bid)
                (print_int-IsField bid),
            atoi-print_int bid (b.message + length (print_int auction_id) + 1 + 1) s fits_bid,
          )
          refl

  -- A request to create an auction that has a name and no duration ends in `atoi(NULL)`, and so does
  -- a bid with an id that is an `int` and no price; `calloc` gave a block long enough for the message.
  process_job-short :
      (type : MsgType) (field : Text)
      → (type ≡ MsgType.ancreate) ⊎ ((type ≡ MsgType.anbid) × (fits_int (parse_int field) ≡ true))
      → IsField field
      → leb (length field + 1) room ≡ true
      → process_job b (job_of client_fd len type field) s ≡ stop null_deref
  unfolding switch create_job bid_job code atoi
  process_job-short type field (inl create) is fits =
      ap (λ t. process_job b (job_of client_fd len t field) s) create
      ∙ process_job-copied MsgType.ancreate field fits
      ∙ rw (strtok_over b.message field is) refl
  process_job-short type field (inr (bids, small)) is fits =
      ap (λ t. process_job b (job_of client_fd len t field) s) bids
      ∙ process_job-copied MsgType.anbid field fits
      ∙ rw (strtok-last b.message field is, small, strtok_over b.message field is) refl
