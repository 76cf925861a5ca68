-- ===== src/Server/Monad/Strcat.antt =====
-- Calls of `strcat` in a row, as src/helpers.c puts its messages together.
use zbid.Base.{
  ◌+◌, ◌≡◌, refl, ◌∙◌, sym, ap, true, false, List, [], ◌∷◌, ◌++◌, append_assoc, length,
  length-append, arith, leb, Text, Bool-cases, inl, inr,
}
use zbid.Server.{Server}
use zbid.Server.Monad.{M, Run, done, stop, overrun, ◌>>=◌, and_then, strcat}

pub strcat-fits :
    (buf str : Text) (s : Server)
    → leb (length (buf ++ str) + 1) 1024 ≡ true
    → strcat buf str s ≡ done (buf ++ str) s
unfolding strcat
strcat-fits buf str s fits = rw fits refl

pub strcat-full :
    (buf str : Text) (s : Server)
    → leb (length (buf ++ str) + 1) 1024 ≡ false
    → strcat buf str s ≡ stop overrun
unfolding strcat
strcat-full buf str s full = rw full refl

pub strcat-strcat :
    {A : Type 0} (buf x y : Text) (s : Server) (k : Text → M A)
    → and_then (strcat buf x s) (λ b t. and_then (strcat b y t) k)
      ≡ and_then (strcat buf (x ++ y) s) k
strcat-strcat buf x y s k =
    let again : leb (length (buf ++ (x ++ y)) + 1) 1024 ≡ leb (length (buf ++ x ++ y) + 1) 1024 =
      ap (λ t. leb (length t + 1) 1024) (sym (append_assoc buf x y)) in
    elim (Bool-cases (leb (length (buf ++ x) + 1) 1024)) [
      | inl fits ↦ elim (Bool-cases (leb (length (buf ++ x ++ y) + 1) 1024)) [
        | inl both ↦
            ap (λ r. and_then r (λ b t. and_then (strcat b y t) k)) (strcat-fits buf x s fits)
            ∙ ap (λ r. and_then r k) (strcat-fits (buf ++ x) y s both)
            ∙ ap (λ t. k t s) (append_assoc buf x y)
            ∙ sym (ap (λ r. and_then r k) (strcat-fits buf (x ++ y) s (again ∙ both)))
        | inr second ↦
            ap (λ r. and_then r (λ b t. and_then (strcat b y t) k)) (strcat-fits buf x s fits)
            ∙ ap (λ r. and_then r k) (strcat-full (buf ++ x) y s second)
            ∙ sym (ap (λ r. and_then r k) (strcat-full buf (x ++ y) s (again ∙ second)))
      ]
      | inr full ↦
          ap (λ r. and_then r (λ b t. and_then (strcat b y t) k)) (strcat-full buf x s full)
          ∙ sym (ap (λ r. and_then r k) (strcat-full buf (x ++ y) s (longer full)))
    ]
  where
    longer :
        leb (length (buf ++ x) + 1) 1024 ≡ false → leb (length (buf ++ (x ++ y)) + 1) 1024 ≡ false
    longer full = ground (arith, length-append buf (x ++ y), length-append x y, length-append buf x)

pub and_then-done : {A : Type 0} (r : Run A) → and_then r done ≡ r
and_then-done (done a s) = refl
and_then-done (stop e) = refl

pub strcat-last :
    (buf x y : Text) (s : Server)
    → and_then (strcat buf x s) (λ b t. strcat b y t) ≡ strcat buf (x ++ y) s
strcat-last buf x y s =
    ap (and_then (strcat buf x s)) (λ i b t. sym (and_then-done (strcat b y t)) i)
    ∙ strcat-strcat buf x y s done
    ∙ and_then-done (strcat buf (x ++ y) s)

-- Several calls of `strcat` in a row.
unfoldable pub strcats : Text → List Text → Text → M Text
unfolding strcat
strcats x [] buf = strcat buf x
strcats x (y ∷ ys) buf = do buf ← strcat buf x; strcats y ys buf

abbrev pub join : Text → List Text → Text
join x [] = x
join x (y ∷ ys) = x ++ join y ys

pub strcats-join :
    (x : Text) (ys : List Text) (buf : Text) (s : Server)
    → strcats x ys buf s ≡ strcat buf (join x ys) s
unfolding strcats
strcats-join x [] buf s = refl
strcats-join x (y ∷ ys) buf s =
    ap (and_then (strcat buf x s)) (λ i b t. strcats-join y ys b t i)
    ∙ strcat-last buf x (join y ys) s

-- `strcat` leaves the state as it is, so what follows matters at that state only.
pub strcat_cong :
    {A : Type 0} (k l : Text → M A) (buf x : Text) (s : Server)
    → ((b : Text) → k b s ≡ l b s)
    → and_then (strcat buf x s) k ≡ and_then (strcat buf x s) l
strcat_cong k l buf x s at_s = elim (Bool-cases (leb (length (buf ++ x) + 1) 1024)) [
  | inl fits ↦ rw (strcat-fits buf x s fits) (at_s (buf ++ x))
  | inr full ↦ rw (strcat-full buf x s full) refl
]

-- Several calls in a row, and what is done with the buffer.
unfoldable pub strcats_then : {A : Type 0} → Text → List Text → (Text → M A) → Text → M A
unfolding strcat
strcats_then x [] k buf = strcat buf x >>= k
strcats_then x (y ∷ ys) k buf = do buf ← strcat buf x; strcats_then y ys k buf

pub strcats_then-join :
    {A : Type 0} (x : Text) (ys : List Text) (k : Text → M A) (buf : Text) (s : Server)
    → strcats_then x ys k buf s ≡ and_then (strcat buf (join x ys) s) k
unfolding strcats_then
strcats_then-join x [] k buf s = refl
strcats_then-join x (y ∷ ys) k buf s =
    ap (and_then (strcat buf x s)) (λ i b t. strcats_then-join y ys k b t i)
    ∙ strcat-strcat buf x (join y ys) s k
