-- ===== src/Jobs/Block.antt =====
-- A block of memory that the C library's allocator gave, read as a string.
use zbid.Base.{
  ℕ, zero, suc, ◌-◌, ◌==◌, Option, none, some, List, [], ◌∷◌, ◌++◌, length, Text, if◌then◌else◌,
}
use zbid.Server.Monad.{M, pure, halt, overrun}

abbrev pub zeros : ℕ → List ℕ
zeros zero = []
zeros (suc n) = 0 ∷ zeros n

abbrev pub prepend : ℕ → Option Text → Option Text
prepend c none = none
prepend c (some t) = some (c ∷ t)

-- The bytes before the first NUL; `none` where the block holds no NUL.
unfoldable pub c_string : List ℕ → Option Text
c_string [] = none
c_string (c ∷ cs) = let rest = c_string cs in if c == 0 then some [] else prepend c rest

-- `calloc(len, 1)` and `read`: the bytes that came, zeros up to `len`, and behind them whatever the
-- allocator's block has more.
abbrev pub filled : ℕ → List ℕ → List ℕ → List ℕ
filled len received slack = received ++ (zeros (len - length received) ++ slack)

abbrev pub string_or_stop : Option Text → M Text
string_or_stop none = halt overrun
string_or_stop (some t) = pure t
