-- ===== src/Server/Print.antt =====
-- The C library's `sprintf(s, "%d", n)` for the values of an `int`, and the separators that the
-- handlers put between the fields of a message.
use zbid.Base.{ℕ, zero, suc, ◌+◌, ◌/◌, ◌%◌, ◌==◌, [], ◌∷◌, ℤ, pos, negsuc, Text, if◌then◌else◌}

-- The digits of `n` before `acc`, at most one for each unit of fuel.
unfoldable pub digits : ℕ → ℕ → Text → Text
digits zero n acc = acc
digits (suc f) n acc =
    let d : ℕ = 48 + n % 10 in
    let rest = digits f (n / 10) (d ∷ acc) in if n / 10 == 0 then d ∷ acc else rest

-- An `int` has at most ten digits.
unfoldable pub print_int : ℤ → Text
unfolding digits
print_int (pos n) = digits 10 n []
print_int (negsuc n) = b'-' ∷ digits 10 (suc n) []

-- "\r\n", "\n" and ";".
abbrev pub crlf : Text
crlf = 13 ∷ 10 ∷ []

abbrev pub newline : Text
newline = 10 ∷ []

abbrev pub semicolon : Text
semicolon = b';' ∷ []
