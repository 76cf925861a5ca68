-- ===== src/Jobs/Text.antt =====
-- `strtok` with the delimiters "\r\n" and `atoi` of the C library, as src/finalsample.c calls them.
pub mod Number
pub mod Tokens
use zbid.Base.{
  ℕ, zero, suc, ◌+◌, ◌-◌, ◌*◌, Bool, true, false, ◌&&◌, ◌||◌, ◌==◌, leb, none, some, [], ◌∷◌,
  length, ℤ, pos, negsuc, fits_int, Text, if◌then◌else◌,
}
use zbid.Server.{Address, CharPtr}
use zbid.Server.Monad.{M, pure, halt, overflow, deref, ◌>>=◌}

abbrev pub is_delim : ℕ → Bool
is_delim c = c == 13 || c == 10

-- The first byte that is no delimiter, with its address, and what follows it.
unfoldable pub drop_delims : Address → Text → Address × Text
drop_delims p [] = (p, [])
drop_delims p (c ∷ cs) =
    let rest = drop_delims (p + 1) cs in if is_delim c then rest else (p, c ∷ cs)

-- The bytes before the next delimiter, and those behind it.
unfoldable pub token : Text → Text × Text
token [] = ([], [])
token (c ∷ cs) = let (t, rest) = token cs in if is_delim c then ([], cs) else (c ∷ t, rest)

unfoldable pub token_at : Address → Text → CharPtr × Address × Text
unfolding token
token_at p [] = (none, p, [])
token_at p (c ∷ cs) =
    let (t, rest) = token (c ∷ cs) in
    (some (record { address = p; text = t }), p + length t + 1, rest)

-- `strtok`: the token, or NULL, and where the next call goes on. Behind the last token no text is
-- left there, and the address is not used.
unfoldable pub strtok : Address → Text → CharPtr × Address × Text
unfolding drop_delims token_at
strtok p text = let (q, rest) = drop_delims p text in token_at q rest

-- White space of the "C" locale, and decimal digits.
abbrev pub is_space : ℕ → Bool
is_space c = c == 32 || (leb 9 c && leb c 13)

abbrev pub is_digit : ℕ → Bool
is_digit c = leb b'0' c && leb c b'9'

unfoldable pub skip_space : Text → Text
skip_space [] = []
skip_space (c ∷ cs) = let rest = skip_space cs in if is_space c then rest else c ∷ cs

-- The number that the leading digits spell behind `n`.
unfoldable pub number : ℕ → Text → ℕ
number n [] = n
number n (c ∷ cs) = let rest = number (n * 10 + (c - b'0')) cs in if is_digit c then rest else n

abbrev pub negated : ℕ → ℤ
negated zero = pos 0
negated (suc n) = negsuc n

-- An optional sign and digits.
unfoldable pub signed : Text → ℤ
unfolding number
signed [] = pos 0
signed (c ∷ cs) =
    if c == b'-'
    then negated (number 0 cs)
    else if c == b'+'
    then pos (number 0 cs)
    else pos (number 0 (c ∷ cs))

unfoldable pub parse_int : Text → ℤ
unfolding skip_space signed
parse_int text = signed (skip_space text)

-- `atoi`, which is undefined where the number is no `int`.
unfoldable pub atoi : CharPtr → M ℤ
unfolding parse_int
atoi str = do
  t ← deref str
  if fits_int (parse_int t.text) then pure (parse_int t.text) else halt overflow
