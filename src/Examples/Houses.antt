-- ===== src/Examples/Houses.antt =====
-- Alice offers a chair, and the house has it.
use zbid.Base.{◌≡◌, refl, true, none, some, [], ◌∷◌, ◌++◌, arith, pos, eq_ℤ, fits_int, str_eq, ◌+ℤ◌}
use zbid.Server.{Server, write}
use zbid.Server.Protocol.{MsgType, code}
use zbid.Server.Print.{print_int}
use zbid.Server.Monad.{done, strcmp}
use zbid.Server.Monad.Ensures.{Ensures}
use zbid.Users.Find.{find_username}
use zbid.Auctions.Create.{create_auction}
use zbid.Jobs.Text.{strtok, atoi}
use zbid.Jobs.Process.{Job, process_job, copy_message, switch, create_job, locked}
use zbid.Jobs.Requests.{job_of, create_text}
use zbid.Invariant.Processing.{IsReadable}
use zbid.System.{Event, job, tick, handle, IsRequest, Reach, later}
use zbid.System.House.{house}
use zbid.System.House.Commands.{Command, order}
use zbid.System.House.Evolves.{Evolves}
use zbid.System.House.Orders.{Obeys}
use zbid.System.House.Refines.{Reach-Obeys}
use zbid.System.House.Lifetimes.{Reach-Evolves}
use zbid.Examples.Demo.{fresh_auction}
use zbid.Examples.Requests.{blocks}
use zbid.Examples.Starting.{newcomer, first, first-Reach}

abbrev offer_chair : Job
offer_chair =
    job_of (pos 4) (pos 10) MsgType.ancreate (create_text (b'c' ∷ b'h' ∷ []) (pos 3) (pos 40))

offer_chair-IsReadable :
    IsReadable blocks newcomer first offer_chair.job_msg_type offer_chair.job_buffer
unfolding strtok code print_int
offer_chair-IsReadable = record {
  creating = λ _. ((_, refl), ((_, refl), ((_, refl), tt)));
  fresh = λ _. refl;
  bidding = λ e. absurd (omega arith);
  leaving = λ e. absurd (omega arith);
}

client_four : find_username (pos 4) first.users ≡ some 0
unfolding find_username eq_ℤ
client_four = refl

abbrev offered : Event
offered = job blocks offer_chair

offered-IsRequest : IsRequest first blocks offer_chair
offered-IsRequest = record {
  index = 0;
  user = newcomer;
  found = client_four;
  at = refl;
  room = 24;
  given = refl;
  readable = offer_chair-IsReadable;
}

Reach-Obeys_example : Obeys first (order first offered) (handle offered first)
Reach-Obeys_example = Reach-Obeys offered first-Reach offered-IsRequest

-- The chair is auction 1, at the address 200.
abbrev second : Server
second = record first {
  users = record newcomer { auctions_owned = 200 ∷ [] } ∷ [];
  auctions = 200 ∷ [];
  heap = write first.heap 200 (record fresh_auction {
    id = pos 1;
    name = some (record { address = 1000; text = b'c' ∷ b'h' ∷ [] });
    duration = pos 3;
    bin_price = pos 40;
    bin_flag = true;
    bid = pos 0;
    current_winner = none;
    creator = newcomer.username;
    watchers = [];
  });
  auction_id = pos 1;
  sent =
      first.sent
      ++ (record { fd = pos 4; msg_type = MsgType.ancreate; msg_len = 2; msgbuf = b'1' ∷ [] }) ∷ [];
}

second_handled : handle offered first ≡ done tt second
unfolding handle process_job copy_message switch create_job locked create_auction atoi strtok strcmp
    str_eq code print_int fits_int eq_ℤ ◌+ℤ◌
second_handled = refl

second-Reach : Reach second
second-Reach = later offered first-Reach offered-IsRequest second_handled

Reach-Evolves_example :
    Ensures
      (λ _ t.
        Evolves Command.strikes
          (house second).accounts
          (house t).accounts
          (house second).lots
          (house t).lots)
      (handle tick second)
Reach-Evolves_example = Reach-Evolves tick second-Reach tt
