-- ===== src/Base/Texts.antt =====
-- Texts read character by character: what the source's regular expressions and string methods see.
use Prim.Native.Nat.{ℕ, zero, suc, ◌+◌, ◌-◌, ◌*◌}
use Prim.Native.Char.{code}
use Prim.Native.String.{String}
use mathlib.Core.Bool.{Bool, true, false, ◌&&◌, ◌||◌}
use mathlib.Core.List.{List, [], ◌∷◌, reverse}
use qvac_atlas.Base.Tests.{leb, ◌==◌, if◌then◌else◌}

-- The code points of a text.
abbrev pub codes : String → List ℕ
codes String.[] = []
codes (String.◌∷◌ c s) = code c ∷ codes s

abbrev pub between : ℕ → ℕ → ℕ → Bool
between a b c = leb a c && leb c b

abbrev pub is_digit : ℕ → Bool
is_digit = between 48 57

-- `[a-f0-9]`.
abbrev pub is_hex : ℕ → Bool
is_hex c = is_digit c || between 97 102 c

-- `[A-Za-z0-9]`.
abbrev pub is_alphanumeric : ℕ → Bool
is_alphanumeric c = is_digit c || between 65 90 c || between 97 122 c

-- A text after its first characters.
abbrev pub drop_chars : ℕ → String → String
drop_chars zero s = s
drop_chars (suc n) String.[] = String.[]
drop_chars (suc n) (String.◌∷◌ c s) = drop_chars n s

-- A text's first characters.
abbrev pub take_chars : ℕ → String → String
take_chars zero s = String.[]
take_chars (suc n) String.[] = String.[]
take_chars (suc n) (String.◌∷◌ c s) = String.◌∷◌ c (take_chars n s)

-- `.split(";", 1)[0]`.
abbrev pub before_semicolon : String → String
before_semicolon String.[] = String.[]
before_semicolon (String.◌∷◌ c s) =
    let rest = before_semicolon s in if code c == 59 then String.[] else String.◌∷◌ c rest

abbrev pub is_space : ℕ → Bool
is_space c =
    between 9 13 c
    || c == 32
    || c == 160
    || c == 5760
    || between 8192 8202 c
    || c == 8232
    || c == 8233
    || c == 8239
    || c == 8287
    || c == 12288
    || c == 65279

abbrev trim_start : List ℕ → List ℕ
trim_start [] = []
trim_start (c ∷ cs) = let rest = trim_start cs in if is_space c then rest else c ∷ cs

-- The code points of `.trim()`.
abbrev pub trimmed : List ℕ → List ℕ
trimmed cs = reverse (trim_start (reverse (trim_start cs)))

abbrev pub same_codes : List ℕ → List ℕ → Bool
same_codes [] [] = true
same_codes (c ∷ cs) (d ∷ ds) = c == d && same_codes cs ds
same_codes _ _ = false

abbrev number_from : ℕ → List ℕ → ℕ
number_from n [] = n
number_from n (c ∷ cs) = number_from (n * 10 + (c - 48)) cs

-- `Number(text)` of decimal digits. Where the source rounds, the value is far above every bound
-- that it is compared with.
abbrev pub number_of : String → ℕ
number_of s = number_from 0 (codes s)
