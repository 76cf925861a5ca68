-- ===== src/Examples/Crowds.antt =====
-- A server with ninety-four lamps.
use zbid.Base.{
  ◌≡◌, refl, false, some, List, [], ◌∷◌, ℕ, zero, suc, ◌≤◌, arith, length, pos, eq_ℤ, ◌≤ℤ◌, All,
}
use zbid.Server.{Heap, Server}
use zbid.Server.Monad.{stop, overrun}
use zbid.Users.Find.Known.{names}
use zbid.Auctions.Sound.{Readable}
use zbid.Auctions.Ids.{ids, NoTwice}
use zbid.Reports.Listing.{list_auctions}
use zbid.Invariant.{Listed, IsValid}
use zbid.Invariant.Listing.{list_auctions-overrun}
use zbid.Examples.Demo.{lamp, demo, demo-IsValid, lamp-IsSound}

-- At every address lies a lamp, with the address as its id.
abbrev lamps : Heap
lamps p = some (record lamp { id = pos p })

abbrev down : ℕ → List ℕ
down zero = []
down (suc n) = n ∷ down n

length-down : (n : ℕ) → length (down n) ≡ n
length-down zero = refl
length-down (suc n) = rw (length-down n) refl

down-Listed : (n : ℕ) → All (Listed lamps (names demo.users)) (down n)
down-Listed zero = tt
down-Listed (suc n) = (
  (
    record lamp { id = pos n },
    refl,
    record {
      created = lamp-IsSound.created;
      led = lamp-IsSound.led;
      watching = lamp-IsSound.watching;
      named = lamp-IsSound.named;
    },
  ),
  down-Listed n,
)

down-below : (n last : ℕ) → n ≤ last → All (λ x. x ≤ℤ pos last) (ids lamps (down n))
down-below zero last small = tt
down-below (suc n) last small = (omega (arith, small), down-below n last (omega (arith, small)))

down-apart : (n m : ℕ) → n ≤ m → All (λ y. eq_ℤ (pos m) y ≡ false) (ids lamps (down n))
unfolding eq_ℤ
down-apart zero m small = tt
down-apart (suc n) m small = (ground (arith, small), down-apart n m (omega (arith, small)))

down-NoTwice : (n : ℕ) → NoTwice (ids lamps (down n))
down-NoTwice zero = tt
down-NoTwice (suc n) = (down-apart n n (omega arith), down-NoTwice n)

abbrev crowded : Server
crowded = record demo { heap = lamps; auctions = down 94; auction_id = pos 94 }

lamps-Readable : Readable lamps 100
lamps-Readable = (record lamp { id = pos 100 }, refl, (_, refl))

crowded-IsValid : IsValid crowded
crowded-IsValid = record {
  listed = down-Listed 94;
  named = demo-IsValid.named;
  secured = demo-IsValid.secured;
  held = (((lamps-Readable, tt), tt), ((tt, tt), tt));
  users_free = refl;
  numbered = (down-below 94 94 (omega arith), down-NoTwice 94);
  ids_free = refl;
}

list_auctions-overrun_example : list_auctions (pos 5) crowded ≡ stop overrun
list_auctions-overrun_example =
    list_auctions-overrun (pos 5) crowded crowded-IsValid (omega (arith, length-down 94))
