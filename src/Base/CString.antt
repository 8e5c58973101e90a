-- ===== src/Base/CString.antt =====
-- C strings as the lists of their bytes, without the terminating NUL, and the functions of
-- string.h and ctype.h that the program calls on them.
use Prim.Native.Nat.{ℕ, suc, ◌+◌, ◌-◌, ◌*◌, ◌%◌}
use Prim.Native.Char.{code}
use Prim.Native.String.{String}
use mathlib.Core.Path.{◌≡◌, refl}
use mathlib.Core.Bool.{Bool, true, false, ◌&&◌, ◌||◌}
use mathlib.Core.List.{List, [], ◌∷◌}
use mathlib.Core.Option.{Option, none, some}
use native.Mathlib.Omega.{arith}
use nx_lite.Base.Tests.{ltb, leb, ◌==◌, if◌then◌else◌}

abbrev pub Bytes : Type 0
Bytes = List ℕ

-- The bytes of an ASCII literal.
abbrev pub codes : String → Bytes
codes String.[] = []
codes (String.◌∷◌ c s) = code c ∷ codes s

-- strcmp(s, t) == 0
unfoldable pub strcmp_eq : Bytes → Bytes → Bool
strcmp_eq [] [] = true
strcmp_eq [] (y ∷ ys) = false
strcmp_eq (x ∷ xs) [] = false
strcmp_eq (x ∷ xs) (y ∷ ys) = x == y && strcmp_eq xs ys

unfoldable pub tolower : ℕ → ℕ
tolower c = if leb b'A' c && leb c b'Z' then c + 32 else c

-- strcasecmp(s, t) == 0
unfoldable pub strcasecmp_eq : Bytes → Bytes → Bool
unfolding tolower
strcasecmp_eq [] [] = true
strcasecmp_eq [] (y ∷ ys) = false
strcasecmp_eq (x ∷ xs) [] = false
strcasecmp_eq (x ∷ xs) (y ∷ ys) = tolower x == tolower y && strcasecmp_eq xs ys

-- Does the byte occur in the string?
unfoldable pub has_byte : ℕ → Bytes → Bool
has_byte b [] = false
has_byte b (c ∷ s) = c == b || has_byte b s

-- isspace in the C locale
unfoldable pub isspace : ℕ → Bool
isspace c = c == 32 || leb 9 c && leb c 13

-- Does `s` begin with `t`? (strncmp(s, t, strlen(t)) == 0)
unfoldable pub has_prefix : Bytes → Bytes → Bool
has_prefix s [] = true
has_prefix [] (y ∷ ys) = false
has_prefix (x ∷ xs) (y ∷ ys) = x == y && has_prefix xs ys

-- strstr(s, t): the bytes before the first occurrence of t, or none.
unfoldable pub strstr : Bytes → Bytes → Option ℕ
unfolding has_prefix
strstr [] t = if has_prefix [] t then some 0 else none
strstr (x ∷ xs) t =
    let rest = strstr xs t in
    if has_prefix (x ∷ xs) t then some 0 else elim rest [ none ↦ none | some n ↦ some (suc n) ]

-- strchr(s, c) - s
unfoldable pub strchr : Bytes → ℕ → Option ℕ
strchr [] c = none
strchr (x ∷ xs) c =
    let rest = strchr xs c in
    if x == c then some 0 else elim rest [ none ↦ none | some n ↦ some (suc n) ]

-- strrchr(s, c) - s
unfoldable pub strrchr : Bytes → ℕ → Option ℕ
strrchr [] c = none
strrchr (x ∷ xs) c =
    let rest = strrchr xs c in
    elim rest [ some n ↦ some (suc n) | none ↦ if x == c then some 0 else none ]

-- A char is signed: the byte c >= 128 stands for c - 256, here modulo m.
unfoldable pub signed_char : ℕ → ℕ → ℕ
signed_char m c = if ltb c 128 then c else c + m - 256

-- The loop `while ((c = *s++)) hash = ((hash << 5) + hash) + c;` on an unsigned type of m values.
unfoldable pub djb2 : ℕ → ℕ → Bytes → ℕ
unfolding signed_char
djb2 m hash [] = hash
djb2 m hash (c ∷ s) = djb2 m ((hash * 32 + hash + signed_char m c) % m) s

pub strcmp_eq_refl : (s : Bytes) → strcmp_eq s s ≡ true
unfolding strcmp_eq
strcmp_eq_refl [] = refl
strcmp_eq_refl (x ∷ xs) = ground (arith, strcmp_eq_refl xs)

pub strcmp_eq_sound : (s t : Bytes) → strcmp_eq s t ≡ true → s ≡ t
unfolding strcmp_eq
strcmp_eq_sound [] [] h = refl
strcmp_eq_sound [] (y ∷ ys) h = ground arith
strcmp_eq_sound (x ∷ xs) [] h = ground arith
strcmp_eq_sound (x ∷ xs) (y ∷ ys) h = ground (arith, strcmp_eq_sound xs ys)
