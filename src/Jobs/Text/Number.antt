-- ===== src/Jobs/Text/Number.antt =====
-- What `atoi` reads of a number that `sprintf` has written.
use zbid.Base.{
  some, ℕ, zero, suc, ◌+◌, ◌*◌, ◌/◌, ◌%◌, ◌^◌, ◌<◌, ◌≡◌, refl, ◌∙◌, sym, ap, true, [], ◌∷◌, arith,
  inl, inr, ◌==◌, Bool-cases, ℤ, pos, negsuc, fits_int, Text,
}
use native.Mathlib.Numerals.{unary_clauses}
use zbid.Server.{Address, Server}
use zbid.Server.Print.{digits, print_int}
use zbid.Server.Monad.{done}
use zbid.Jobs.Text.{is_digit, skip_space, number, negated, signed, parse_int, atoi}

number_digit : (m d : ℕ) (cs : Text) → d < 10 → number m ((48 + d) ∷ cs) ≡ number (m * 10 + d) cs
unfolding number
number_digit m d cs small = ground arith

last_digit : (n : ℕ) (acc : Text) → number (n / 10) ((48 + n % 10) ∷ acc) ≡ number n acc
last_digit n acc =
    let whole : n / 10 * 10 + n % 10 ≡ n = (omega arith) in
    number_digit (n / 10) (n % 10) acc (omega arith) ∙ rw whole refl

ten_times : (fuel n : ℕ) → n < 10 ^ suc fuel → n / 10 < 10 ^ fuel
ten_times fuel n small =
    let bound : n < 10 ^ fuel * 10 = (simp unary_clauses at small) in omega (arith, bound)

-- The digits of a number spell it, before whatever follows.
number-digits :
    (fuel n : ℕ) (acc : Text)
    → n < 10 ^ suc fuel
    → number 0 (digits (suc fuel) n acc) ≡ number n acc
unfolding digits
number-digits zero n acc small =
    let bound : n < 10 = (omega (arith, small)) in
    let one : (n / 10 == 0) ≡ true = (ground (arith, bound)) in
    let none_left : n / 10 ≡ 0 = (omega (arith, bound)) in
    rw one (ap (λ m. number m ((48 + n % 10) ∷ acc)) (sym none_left) ∙ last_digit n acc)
number-digits (suc fuel) n acc small = elim (Bool-cases (n / 10 == 0)) [
  | inl one ↦
      let none_left : n / 10 ≡ 0 = (ground (arith, one)) in
      rw one (ap (λ m. number m ((48 + n % 10) ∷ acc)) (sym none_left) ∙ last_digit n acc)
  | inr more ↦
      rw more (number-digits fuel (n / 10) _ (ten_times (suc fuel) n small) ∙ last_digit n acc)
]

-- A text that begins with a digit.
abbrev pub Starts : Text → Type 0
Starts [] = ⊥
Starts (c ∷ cs) = is_digit c ≡ true

is_digit-of_lt : (d : ℕ) → d < 10 → is_digit (48 + d) ≡ true
is_digit-of_lt d small = ground arith

pub digits-Starts : (fuel n : ℕ) (acc : Text) → Starts (digits (suc fuel) n acc)
unfolding digits
digits-Starts zero n acc = elim (Bool-cases (n / 10 == 0)) [
  | inl one ↦ rw one (is_digit-of_lt (n % 10) (omega arith))
  | inr more ↦ rw more (is_digit-of_lt (n % 10) (omega arith))
]
digits-Starts (suc fuel) n acc = elim (Bool-cases (n / 10 == 0)) [
  | inl one ↦ rw one (is_digit-of_lt (n % 10) (omega arith))
  | inr more ↦ rw more (digits-Starts fuel (n / 10) ((48 + n % 10) ∷ acc))
]

parse_int-digits : (t : Text) → Starts t → parse_int t ≡ pos (number 0 t)
unfolding parse_int skip_space signed
parse_int-digits [] starts = elim starts [ ]
parse_int-digits (c ∷ cs) starts = ground arith

parse_int-negative : (t : Text) → Starts t → parse_int (b'-' ∷ t) ≡ negated (number 0 t)
unfolding parse_int skip_space signed
parse_int-negative t starts = ground arith

parse_int-print_int : (n : ℤ) → fits_int n ≡ true → parse_int (print_int n) ≡ n
unfolding print_int fits_int number
parse_int-print_int (pos n) fits =
    let small : n < 10 ^ 10 = (ground (arith, fits)) in
    parse_int-digits (digits 10 n []) (digits-Starts 9 n []) ∙ ap pos (number-digits 9 n [] small)
parse_int-print_int (negsuc n) fits =
    let small : suc n < 10 ^ 10 = (ground (arith, fits)) in
    parse_int-negative (digits 10 (suc n) []) (digits-Starts 9 (suc n) [])
    ∙ ap negated (number-digits 9 (suc n) [] small)

-- `atoi` reads back what `sprintf` writes for an `int`.
pub atoi-print_int :
    (n : ℤ) (p : Address) (s : Server)
    → fits_int n ≡ true
    → atoi (some (record { address = p; text = print_int n })) s ≡ done n s
unfolding atoi
atoi-print_int n p s fits = rw (parse_int-print_int n fits, fits) refl
