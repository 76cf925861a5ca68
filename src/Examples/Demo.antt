-- ===== src/Examples/Demo.antt =====
-- The state: alice (descriptor 4) has created auction 1, which bob (descriptor 5) watches.
use zbid.Base.{
  arith, refl, true, false, none, some, [], ◌∷◌, pos, Text, str_eq, ◌==◌, if◌then◌else◌,
}
use zbid.Server.{CharPtr, Address, User, Auction, Server}
use zbid.Server.Monad.{strcmp}
use zbid.Users.Find.{find_user_position}
use zbid.Users.Find.Known.{names}
use zbid.Auctions.Sound.{IsSound, Readable}
use zbid.Invariant.{IsValid}

abbrev pub str : Address → Text → CharPtr
str p text = some (record { address = p; text = text })

abbrev pub alice : User
alice = record {
  username = str 10 (b'a' ∷ []);
  password = str 12 (b'x' ∷ []);
  login_flag = true;
  balance = pos 0;
  fd = pos 4;
  auctions_owned = 100 ∷ [];
  auctions_won = [];
  auctions_sold = 0;
}

abbrev pub bob : User
bob = record {
  username = str 20 (b'b' ∷ []);
  password = str 22 (b'y' ∷ []);
  login_flag = true;
  balance = pos 0;
  fd = pos 5;
  auctions_owned = [];
  auctions_won = [];
  auctions_sold = 0;
}

-- A block as `malloc` may return it.
abbrev pub fresh_auction : Auction
fresh_auction = record {
  id = pos 77;
  name = none;
  duration = pos 0;
  bin_price = pos 0;
  bin_flag = false;
  bid = pos 0;
  current_winner = none;
  creator = none;
  watchers = [];
  number_of_watchers = pos 0;
}

abbrev pub fresh_user : User
fresh_user = record {
  username = none;
  password = none;
  login_flag = false;
  balance = pos 9;
  fd = pos 0;
  auctions_owned = [];
  auctions_won = [];
  auctions_sold = 8;
}

abbrev pub lamp : Auction
lamp = record {
  id = pos 1;
  name = str 30 (b'l' ∷ []);
  duration = pos 1;
  bin_price = pos 100;
  bin_flag = true;
  bid = pos 0;
  current_winner = none;
  creator = alice.username;
  watchers = bob.username ∷ [];
  number_of_watchers = pos 1;
}

abbrev pub demo : Server
demo = record {
  users = alice ∷ bob ∷ [];
  auctions = 100 ∷ [];
  heap = λ p. if p == 100 then some lamp else none;
  auction_id = pos 1;
  tick = pos 0;
  users_mutex = 1;
  auctions_mutex = 1;
  auction_id_mutex = 1;
  sent = [];
}

pub lamp-IsSound : IsSound (names demo.users) lamp
unfolding find_user_position strcmp str_eq
lamp-IsSound = record {
  created = (_, refl, (0, refl));
  led = refl;
  watching = ((1, refl), tt);
  named = (_, refl);
}

lamp-Readable : Readable demo.heap 100
lamp-Readable = (lamp, refl, (_, refl))

pub demo-IsValid : IsValid demo
demo-IsValid = record {
  listed = ((lamp, refl, lamp-IsSound), tt);
  named = ((_, refl), ((_, refl), tt));
  secured = ((_, refl), ((_, refl), tt));
  held = (((lamp-Readable, tt), tt), ((tt, tt), tt));
  users_free = refl;
  numbered = ((omega arith, tt), (tt, tt));
  ids_free = refl;
}
