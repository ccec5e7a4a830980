-- ===== src/Base/Spelling.antt =====
-- White space, case and stretches of a text.
use Prim.Native.Char.{Char, code}
use Prim.Native.Nat.{ℕ, ◌+◌}
use Prim.Native.String.{String, [], ◌∷◌}
use mathlib.Core.Bool.{Bool, true, false, ◌||◌, ◌&&◌}
use mathlib.Core.Option.{Option, none, some}
use text.Mathlib.Text.{◌==◌ as str_eq, starts_with}
use bilbycast_gateway_sdk.Base.Tests.{leb, if◌then◌else◌, ◌==◌}

-- `char::is_whitespace`
abbrev is_whitespace : ℕ → Bool
is_whitespace c =
    (leb 9 c && leb c 13)
    || c == 32
    || c == 133
    || c == 160
    || c == 5760
    || (leb 8192 c && leb c 8202)
    || c == 8232
    || c == 8233
    || c == 8239
    || c == 8287
    || c == 12288

abbrev trim_start : String → String
trim_start [] = []
trim_start (c ∷ s) = let rest = trim_start s in if is_whitespace (code c) then rest else c ∷ s

abbrev trim_end : String → String
trim_end [] = []
trim_end (c ∷ s) =
    let rest = trim_end s in if is_whitespace (code c) && str_eq rest "" then [] else c ∷ rest

unfoldable pub trim : String → String
trim s = trim_end (trim_start s)

abbrev pub no_whitespace : String → String
no_whitespace [] = []
no_whitespace (c ∷ s) =
    let rest = no_whitespace s in if is_whitespace (code c) then rest else c ∷ rest

abbrev lower : ℕ → ℕ
lower c = if leb 65 c && leb c 90 then c + 32 else c

-- `str::eq_ignore_ascii_case`
unfoldable pub eq_ignore_ascii_case : String → String → Bool
eq_ignore_ascii_case [] [] = true
eq_ignore_ascii_case [] (d ∷ t) = false
eq_ignore_ascii_case (c ∷ s) [] = false
eq_ignore_ascii_case (c ∷ s) (d ∷ t) =
    let rest = eq_ignore_ascii_case s t in lower (code c) == lower (code d) && rest

-- What follows from the first occurrence of `t` on: `str::find`.
unfoldable pub from_first : String → String → Option String
from_first t [] = if str_eq t "" then some [] else none
from_first t (c ∷ s) =
    let rest = from_first t s in if starts_with (c ∷ s) t then some (c ∷ s) else rest

unfoldable pub take_while : (Char → Bool) → String → String
take_while p [] = []
take_while p (c ∷ s) = let rest = take_while p s in if p c then c ∷ rest else []
