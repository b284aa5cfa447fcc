-- ===== src/Common/Text.antt =====
-- Python's `str.strip`, `len` and prefixes over the native texts.
use Prim.Native.Nat.{ℕ, zero, suc, ◌+◌, ◌≤◌}
use native.Mathlib.Omega.{arith}
use Prim.Native.Char.{code}
use Prim.Native.String.{String, ◌++◌ as ◌<>◌}
use text.Mathlib.TextLemmas.{nil-append, cons-append}
use mathlib.Core.Path.{◌≡◌, refl, ap, ◌∙◌}
use mathlib.Core.Bool.{Bool, ◌&&◌, ◌||◌}
use engineering_memory_agent.Common.Tests.{leb, ◌==◌, str_eq, if◌then◌else◌}

between : ℕ → ℕ → ℕ → Bool
between lo hi c = leb lo c && leb c hi

-- The code points for which `str.isspace` holds.
unfoldable pub is_space : ℕ → Bool
unfolding between
is_space c =
    between 9 13 c
    || between 28 32 c
    || c == 133
    || c == 160
    || c == 5760
    || between 8192 8202 c
    || c == 8232
    || c == 8233
    || c == 8239
    || c == 8287
    || c == 12288

unfoldable pub lstrip : String → String
lstrip String.[] = String.[]
lstrip (String.◌∷◌ c s) = if is_space (code c) then lstrip s else String.◌∷◌ c s

unfoldable pub rstrip : String → String
rstrip String.[] = String.[]
rstrip (String.◌∷◌ c s) =
    let rest = rstrip s in
    if is_space (code c) && str_eq rest "" then String.[] else String.◌∷◌ c rest

unfoldable pub strip : String → String
unfolding lstrip rstrip is_space
strip s = rstrip (lstrip s)

strip_example : strip "  a b\n" ≡ "a b"
unfolding strip
strip_example = refl

-- `len` of a text and its prefix, by characters.
unfoldable pub chars : String → ℕ
chars String.[] = 0
chars (String.◌∷◌ c s) = suc (chars s)

unfoldable pub take_chars : ℕ → String → String
take_chars zero s = String.[]
take_chars (suc n) String.[] = String.[]
take_chars (suc n) (String.◌∷◌ c s) = String.◌∷◌ c (take_chars n s)

pub chars-take_chars : (n : ℕ) (s : String) → chars (take_chars n s) ≤ n
unfolding chars take_chars
chars-take_chars zero s = omega arith
chars-take_chars (suc n) String.[] = omega arith
chars-take_chars (suc n) (String.◌∷◌ c s) = omega (arith, chars-take_chars n s)

pub chars-append : (s t : String) → chars (s <> t) ≡ chars s + chars t
unfolding chars
chars-append String.[] t = ap chars (nil-append t) ∙ omega arith
chars-append (String.◌∷◌ c s) t =
    ap chars (cons-append c s t) ∙ ap suc (chars-append s t) ∙ omega arith

pub take_chars-append :
    (n : ℕ) (s t : String) → n ≤ chars s → take_chars n (take_chars n s <> t) ≡ take_chars n s
unfolding chars take_chars
take_chars-append zero s t h = refl
take_chars-append (suc n) String.[] t h = absurd (omega arith)
take_chars-append (suc n) (String.◌∷◌ c s) t h =
    ap (take_chars (suc n)) (cons-append c (take_chars n s) t)
    ∙ ap (String.◌∷◌ c) (take_chars-append n s t (omega arith))
