-- ===== src/Common/Texts.antt =====
-- Texts that the program cuts and searches: lists of code points, with Python's string methods.
use Prim.Native.Char.{code}
use Prim.Native.String.{String}
use Prim.Native.Nat.{ℕ, ◌≤◌}
use mathlib.Core.Bool.{Bool, true, false, ◌&&◌, ◌||◌}
use mathlib.Core.List.{List, [], ◌∷◌, reverse}
use mathlib.Core.Path.{◌≡◌, refl}
use native.Mathlib.Omega.{arith}
use text.Mathlib.Text.{◌==◌ as str_eq}
use text.Mathlib.TextEquality.{eq_iff}
use root_agent.Common.Tests.{leb, ◌==◌, if◌then◌else◌}
use root_agent.Common.Lists.{length}

abbrev pub Text : Type 0
Text = List ℕ

-- A literal of the source.
abbrev pub codes : String → Text
codes String.[] = []
codes (String.◌∷◌ c s) = code c ∷ codes s

-- `str.isspace` of one character
abbrev pub is_space : ℕ → Bool
is_space c =
    (leb 9 c && leb c 13)
    || (leb 28 c && leb c 32)
    || c == 0x85
    || c == 0xA0
    || c == 0x1680
    || (leb 0x2000 c && leb c 0x200A)
    || (leb 0x2028 c && leb c 0x2029)
    || c == 0x202F
    || c == 0x205F
    || c == 0x3000

-- `str.lstrip`, for a set of characters
abbrev pub drop_while : (ℕ → Bool) → Text → Text
drop_while p [] = []
drop_while p (c ∷ cs) = if p c then drop_while p cs else c ∷ cs

-- `str.rstrip`
abbrev pub rstrip_by : (ℕ → Bool) → Text → Text
rstrip_by p cs = reverse (drop_while p (reverse cs))

-- `str.strip`
abbrev pub strip_by : (ℕ → Bool) → Text → Text
strip_by p cs = rstrip_by p (drop_while p cs)

abbrev pub strip : Text → Text
strip = strip_by is_space

abbrev pub text_eq : Text → Text → Bool
text_eq [] [] = true
text_eq (a ∷ s) (b ∷ t) = a == b && text_eq s t
text_eq _ _ = false

-- `text.startswith(prefix)`
abbrev pub starts_with : Text → Text → Bool
starts_with text [] = true
starts_with [] (p ∷ prefix) = false
starts_with (c ∷ text) (p ∷ prefix) = c == p && starts_with text prefix

-- `part in text`
abbrev pub contains : Text → Text → Bool
contains part [] = starts_with [] part
contains part (c ∷ text) = starts_with (c ∷ text) part || contains part text

abbrev pub is_empty : Text → Bool
is_empty [] = true
is_empty (c ∷ cs) = false

pub length-drop_while : (p : ℕ → Bool) (cs : Text) → length (drop_while p cs) ≤ length cs
length-drop_while p [] = omega arith
length-drop_while p (c ∷ cs) = ground (arith, length-drop_while p cs)

pub str_eq_refl : (s : String) → str_eq s s ≡ true
str_eq_refl s = (eq_iff s s).1 refl

pub text_eq_refl : (s : Text) → text_eq s s ≡ true
text_eq_refl [] = refl
text_eq_refl (c ∷ s) = ground (arith, text_eq_refl s)

pub text_eq_sound : (s t : Text) → text_eq s t ≡ true → s ≡ t
text_eq_sound [] [] h = refl
text_eq_sound [] (c ∷ t) h = cc
text_eq_sound (c ∷ s) [] h = cc
text_eq_sound (c ∷ s) (d ∷ t) h = ground (arith, text_eq_sound s t)

pub text_eq_sym : (s t : Text) → text_eq s t ≡ text_eq t s
text_eq_sym [] [] = refl
text_eq_sym [] (c ∷ t) = refl
text_eq_sym (c ∷ s) [] = refl
text_eq_sym (c ∷ s) (d ∷ t) = ground (arith, text_eq_sym s t)
