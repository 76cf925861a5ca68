-- ===== src/Reports/Lines/Bounds.antt =====
-- How long the texts of src/helpers.c can get.
use zbid.Base.{
  ◌≡◌, some, List, [], ◌∷◌, ℕ, zero, suc, ◌+◌, ◌*◌, ◌/◌, ◌%◌, ◌≤◌, ◌<◌, ◌==◌, length, length-append,
  arith, Text, ℤ, pos, negsuc, All, Bool-cases, inl, inr,
}
use zbid.Server.{CString, Address, Heap, Auction}
use zbid.Server.Print.{digits, print_int}
use zbid.Reports.Lines.{line, Lines, no_lines, one_line}

length-digits : (fuel n : ℕ) (acc : Text) → length (digits fuel n acc) ≤ fuel + length acc
unfolding digits
length-digits zero n acc = omega arith
length-digits (suc fuel) n acc = elim (Bool-cases (n / 10 == 0)) [
  | inl one ↦ rw one (omega arith)
  | inr more ↦
      let rest = length-digits fuel (n / 10) ((48 + n % 10) ∷ acc) in rw more (omega (arith, rest))
]

-- An `int` is printed in eleven bytes at most.
pub length-print_int : (n : ℤ) → length (print_int n) ≤ 11
unfolding print_int
length-print_int (pos n) = let short = length-digits 10 n [] in omega (arith, short)
length-print_int (negsuc n) = let short = length-digits 10 (suc n) [] in omega (arith, short)

digits-longer : (fuel n : ℕ) (acc : Text) → length acc < length (digits (suc fuel) n acc)
unfolding digits
digits-longer zero n acc = elim (Bool-cases (n / 10 == 0)) [
  | inl one ↦ rw one (omega arith)
  | inr more ↦ rw more (omega arith)
]
digits-longer (suc fuel) n acc = elim (Bool-cases (n / 10 == 0)) [
  | inl one ↦ rw one (omega arith)
  | inr more ↦
      let rest = digits-longer fuel (n / 10) ((48 + n % 10) ∷ acc) in rw more (omega (arith, rest))
]

print_int-longer : (n : ℤ) → 0 < length (print_int n)
unfolding print_int
print_int-longer (pos n) = digits-longer 9 n []
print_int-longer (negsuc n) = omega arith

length-line : (a : Auction) (name : Text) → length (line a name) ≤ 61 + length name
length-line a name =
    let id = length-print_int a.id in
    let price = length-print_int a.bin_price in
    let count = length-print_int a.number_of_watchers in
    let bid = length-print_int a.bid in
    let left = length-print_int a.duration in
    simp length-append (omega (arith, id, price, count, bid, left))

line-longer : (a : Auction) (name : Text) → 11 ≤ length (line a name)
line-longer a name =
    let id = print_int-longer a.id in
    let price = print_int-longer a.bin_price in
    let count = print_int-longer a.number_of_watchers in
    let bid = print_int-longer a.bid in
    let left = print_int-longer a.duration in
    simp length-append (omega (arith, id, price, count, bid, left))

-- Whatever auction lies at the address, its name has so many bytes at most.
abbrev pub IsNamedWithin : Heap → ℕ → Address → Type 0
IsNamedWithin h m p =
    (a : Auction) (n : CString) → h p ≡ some a → a.name ≡ some n → length n.text ≤ m

pub length-Lines :
    (h : Heap) (m : ℕ) {ps : List Address} {text : Text}
    → Lines h ps text
    → All (IsNamedWithin h m) ps
    → length text ≤ length ps * (61 + m)
length-Lines h m no_lines within = omega arith
length-Lines h m (one_line {ps = ps} {a = a} {n = n} {rest = rest} at named lines) (short, within) =
    let first = length-line a n.text in
    let name = short a n at named in
    let others = length-Lines h m lines within in
    rw (length-append (line a n.text) rest) (omega (arith, first, name, others))

-- A line has eleven bytes at least.
pub Lines-longer :
    (h : Heap) {ps : List Address} {text : Text} → Lines h ps text → length ps * 11 ≤ length text
Lines-longer h no_lines = omega arith
Lines-longer h (one_line {ps = ps} {a = a} {n = n} {rest = rest} at named lines) =
    let first = line-longer a n.text in
    let others = Lines-longer h lines in
    rw (length-append (line a n.text) rest) (omega (arith, first, others))
