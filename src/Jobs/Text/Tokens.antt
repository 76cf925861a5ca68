-- ===== src/Jobs/Text/Tokens.antt =====
-- What `strtok` reads of a message whose fields are parted by "\r\n".
use zbid.Base.{
  ℕ, zero, suc, ◌+◌, ◌/◌, ◌%◌, ◌<◌, ◌≡◌, refl, false, some, none, [], ◌∷◌, ◌++◌, arith, inl, inr,
  ◌==◌, Bool-cases, length, ℤ, pos, negsuc, Text, All,
}
use zbid.Server.{Address, CharPtr}
use zbid.Server.Print.{digits, print_int}
use zbid.Jobs.Text.Number.{Starts, digits-Starts}
use zbid.Jobs.Text.{is_delim, token, strtok}

-- A text without a delimiter, and one that is a field of a message.
abbrev pub IsPlain : Text → Type 0
IsPlain = All (λ c. is_delim c ≡ false)

abbrev pub IsField : Text → Type 0
IsField [] = ⊥
IsField (c ∷ cs) = IsPlain (c ∷ cs)

abbrev pub pointer : Address → Text → CharPtr
pointer p t = some (record { address = p; text = t })

token-last : (t : Text) → IsPlain t → token t ≡ (t, [])
unfolding token
token-last [] plain = refl
token-last (c ∷ cs) (pc, plain) = rw (pc, token-last cs plain) refl

token-more : (t rest : Text) → IsPlain t → token (t ++ 13 ∷ rest) ≡ (t, rest)
unfolding token
token-more [] rest plain = refl
token-more (c ∷ cs) rest (pc, plain) = rw (pc, token-more cs rest plain) refl

-- The last field, and a field with others behind it, each behind the "\n" of the one before or not.
pub strtok-last : (p : Address) (t : Text) → IsField t → (strtok p t).0 ≡ pointer p t
unfolding strtok
strtok-last p [] field = elim field [ ]
strtok-last p (c ∷ cs) field = rw (field.0, token-last (c ∷ cs) field) refl

-- Behind the last field there is none.
pub strtok_over :
    (p : Address) (t : Text) → IsField t → (strtok (strtok p t).1 (strtok p t).2).0 ≡ none
unfolding strtok
strtok_over p [] field = elim field [ ]
strtok_over p (c ∷ cs) field = rw (field.0, token-last (c ∷ cs) field) refl

pub strtok-more :
    (p : Address) (t rest : Text)
    → IsField t
    → strtok p (t ++ 13 ∷ rest) ≡ (pointer p t, p + length t + 1, rest)
unfolding strtok
strtok-more p [] rest field = elim field [ ]
strtok-more p (c ∷ cs) rest field = rw (field.0, token-more (c ∷ cs) rest field) refl

pub strtok_next-more :
    (p : Address) (t rest : Text)
    → IsField t
    → strtok p (10 ∷ (t ++ 13 ∷ rest)) ≡ (pointer (p + 1) t, p + 1 + length t + 1, rest)
unfolding strtok
strtok_next-more p t rest field = strtok-more (p + 1) t rest field

pub strtok_next-last :
    (p : Address) (t : Text) → IsField t → (strtok p (10 ∷ t)).0 ≡ pointer (p + 1) t
unfolding strtok
strtok_next-last p t field = strtok-last (p + 1) t field

is_delim-digit : (d : ℕ) → d < 10 → is_delim (48 + d) ≡ false
is_delim-digit d small = ground arith

digits-IsPlain : (fuel n : ℕ) (acc : Text) → IsPlain acc → IsPlain (digits fuel n acc)
unfolding digits
digits-IsPlain zero n acc plain = plain
digits-IsPlain (suc fuel) n acc plain =
    let one : is_delim (48 + n % 10) ≡ false = is_delim-digit (n % 10) (omega arith) in
    elim (Bool-cases (n / 10 == 0)) [
      | inl last ↦ rw last (one, plain)
      | inr more ↦ rw more (digits-IsPlain fuel (n / 10) _ (one, plain))
    ]

IsField-of : (t : Text) → Starts t → IsPlain t → IsField t
IsField-of [] starts plain = starts
IsField-of (c ∷ cs) starts plain = plain

-- A number that `sprintf` has written is a field.
pub print_int-IsField : (n : ℤ) → IsField (print_int n)
unfolding print_int
print_int-IsField (pos n) =
    IsField-of (digits 10 n []) (digits-Starts 9 n []) (digits-IsPlain 10 n [] tt)
print_int-IsField (negsuc n) = (refl, digits-IsPlain 10 (suc n) [] tt)
