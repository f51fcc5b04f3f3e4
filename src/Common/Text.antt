-- ===== src/Common/Text.antt =====
-- Go's strings as lists of bytes, with the functions of package `strings` that the program calls.
use Prim.Native.Nat.{ℕ, suc, zero, ◌+◌, ◌-◌, ◌≤◌}
use Prim.Native.Char.{code}
use Prim.Native.String.{String}
use mathlib.Core.Path.{◌≡◌, refl, ap}
use mathlib.Core.Logic.{◌↔◌}
use mathlib.Core.Bool.{Bool, true, false, ◌&&◌, ◌||◌}
use mathlib.Core.List.{List, [], ◌∷◌, ◌++◌}
use native.Mathlib.Omega.{arith}
use omnigo_app.Common.Tests.{leb, ◌==◌, if◌then◌else◌}
use omnigo_app.Common.Lists.{drop, length}

abbrev pub Text : Type 0
Text = List ℕ

-- The bytes of an ASCII literal.
abbrev pub codes : String → Text
codes String.[] = []
codes (String.◌∷◌ c s) = code c ∷ codes s

unfoldable pub text_eq : Text → Text → Bool
text_eq [] [] = true
text_eq [] (d ∷ t) = false
text_eq (c ∷ s) [] = false
text_eq (c ∷ s) (d ∷ t) = c == d && text_eq s t

pub text_eq_sound : (s t : Text) → text_eq s t ≡ true → s ≡ t
unfolding text_eq
text_eq_sound [] [] h = refl
text_eq_sound [] (d ∷ t) h = ground arith
text_eq_sound (c ∷ s) [] h = ground arith
text_eq_sound (c ∷ s) (d ∷ t) h = ground (arith, text_eq_sound s t)

pub text_eq_refl : (s : Text) → text_eq s s ≡ true
unfolding text_eq
text_eq_refl [] = refl
text_eq_refl (c ∷ s) = ground (arith, text_eq_refl s)

pub text_eq_iff : (s t : Text) → (text_eq s t ≡ true) ↔ (s ≡ t)
text_eq_iff s t = (text_eq_sound s t, λ e. rw e (text_eq_refl t))

pub text_eq_comm : (s t : Text) → text_eq s t ≡ text_eq t s
text_eq_comm s t = ground (arith, text_eq_iff s t, text_eq_iff t s)

length-append_right : (t u : Text) → length u ≤ length (t ++ u)
length-append_right [] u = omega arith
length-append_right (d ∷ t) u = omega (arith, length-append_right t u)

-- Texts with a common ending are equal if what stands before it is.
pub append_cancel_right : (s t u : Text) → s ++ u ≡ t ++ u → s ≡ t
append_cancel_right [] [] u h = refl
append_cancel_right [] (d ∷ t) u h = absurd (omega (arith, ap length h, length-append_right t u))
append_cancel_right (c ∷ s) [] u h = absurd (omega (arith, ap length h, length-append_right s u))
append_cancel_right (c ∷ s) (d ∷ t) u h = ground (arith, append_cancel_right s t u)

-- `strings.ReplaceAll(s, string(b), "")`.
unfoldable pub remove : ℕ → Text → Text
remove b [] = []
remove b (c ∷ s) = let rest = remove b s in if c == b then rest else c ∷ rest

-- `strings.Contains(s, string(b))`.
unfoldable pub contains : ℕ → Text → Bool
contains b [] = false
contains b (c ∷ s) = c == b || contains b s

-- `strings.ToUpper` of one byte; the texts it is applied to are ASCII.
unfoldable pub to_upper : ℕ → ℕ
to_upper c = if leb b'a' c && leb c b'z' then c - 32 else c

to_lower : ℕ → ℕ
to_lower c = if leb b'A' c && leb c b'Z' then c + 32 else c

is_head : ℕ → Text → Bool
is_head b [] = false
is_head b (d ∷ t) = d == b

-- A text with its letters in lower case; U+017F folds to `s` and U+212A to `k`, as Unicode has it.
fold_case : Text → Text
unfolding to_lower is_head
fold_case [] = []
fold_case (c ∷ s) =
    let rest = fold_case s in
    if c == 0xC5 && is_head 0xBF s
    then b's' ∷ drop 1 rest
    else if c == 0xE2 && is_head 0x84 s && is_head 0xAA (drop 1 s)
    then b'k' ∷ drop 2 rest
    else to_lower c ∷ rest

-- `strings.ToLower(s)`, as far as it tells which ASCII text comes out: U+0130 becomes `i` and U+212A
-- becomes `k`; no other rune beyond ASCII becomes one of ASCII, and those stay as they are.
unfoldable pub lower : Text → Text
unfolding to_lower is_head
lower [] = []
lower (c ∷ s) =
    let rest = lower s in
    if c == 0xC4 && is_head 0xB0 s
    then b'i' ∷ drop 1 rest
    else if c == 0xE2 && is_head 0x84 s && is_head 0xAA (drop 1 s)
    then b'k' ∷ drop 2 rest
    else to_lower c ∷ rest

-- `strings.EqualFold(s, t)` where `t` is an ASCII literal.
unfoldable pub equal_fold : Text → Text → Bool
unfolding fold_case text_eq
equal_fold s t = text_eq (fold_case s) (fold_case t)

-- How many bytes of the white space of `unicode.IsSpace` a text starts with: one rune's, or none.
space_at : Text → ℕ
unfolding is_head
space_at [] = 0
space_at (c ∷ s) =
    if leb 9 c && leb c 13 || c == 32
    then 1
    else if c == 0xC2 && (is_head 0x85 s || is_head 0xA0 s)
    then 2
    else if c == 0xE1 && is_head 0x9A s && is_head 0x80 (drop 1 s)
    then 3
    else if c == 0xE2 && is_head 0x80 s && is_wide (drop 1 s)
    then 3
    else if c == 0xE2 && is_head 0x81 s && is_head 0x9F (drop 1 s)
    then 3
    else if c == 0xE3 && is_head 0x80 s && is_head 0x80 (drop 1 s)
    then 3
    else 0
  where
    is_wide : Text → Bool
    is_wide [] = false
    is_wide (d ∷ t) = leb 0x80 d && leb d 0x8A || (d == 0xA8 || (d == 0xA9 || d == 0xAF))

-- The number counts the bytes of a rune that are still to skip.
skip_spaces : ℕ → Text → Text
unfolding space_at
skip_spaces n [] = []
skip_spaces (suc n) (c ∷ s) = skip_spaces n s
skip_spaces zero (c ∷ s) =
    let rest = skip_spaces (space_at (c ∷ s) - 1) s in if space_at (c ∷ s) == 0 then c ∷ s else rest

is_empty : Text → Bool
is_empty [] = true
is_empty (c ∷ s) = false

trim_right : Text → Text
unfolding skip_spaces is_empty
trim_right [] = []
trim_right (c ∷ s) =
    let rest = trim_right s in if is_empty (skip_spaces 0 (c ∷ s)) then [] else c ∷ rest

-- `strings.TrimSpace(s)`.
unfoldable pub trim_space : Text → Text
unfolding skip_spaces trim_right
trim_space s = trim_right (skip_spaces 0 s)

trim_examples :
    (trim_space (codes " a b " ++ (0xC2 ∷ 0xA0 ∷ 0xE3 ∷ 0x80 ∷ 0x80 ∷ [])) ≡ codes "a b")
    × (trim_space (0xC2 ∷ 0xA1 ∷ []) ≡ 0xC2 ∷ 0xA1 ∷ [])
unfolding trim_space
trim_examples = (refl, refl)

fold_examples :
    (equal_fold (codes "PaID") (codes "paid") ≡ true)
    × (equal_fold (codes "") (codes "paid") ≡ false)
    × (equal_fold (0xC5 ∷ 0xBF ∷ codes "ettled") (codes "settled") ≡ true)
unfolding equal_fold
fold_examples = (refl, refl, refl)
