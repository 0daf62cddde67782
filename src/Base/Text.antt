-- ===== src/Base/Text.antt =====
-- Python's `str.lower` on ASCII text, which is what chain names and hexadecimal addresses are.
use Prim.Native.Nat.{◌-◌}
use Prim.Native.Char.{Char, code}
use Prim.Native.String.{String, char_at, len, find}
use mathlib.Core.Bool.{Bool, ◌&&◌}
use mathlib.Core.Path.{◌≡◌, refl}
use mathlib.Core.Option.{Option, none, some}
use meme_agent.Base.Tests.{leb, if◌then◌else◌}

lower_char : Char → Char
lower_char c =
    if leb 65 (code c) && leb (code c) 90
    then char_at "abcdefghijklmnopqrstuvwxyz" (code c - 65)
    else c

unfoldable pub lower : String → String
unfolding lower_char
lower String.[] = String.[]
lower (String.◌∷◌ c s) = String.◌∷◌ (lower_char c) (lower s)

-- `s or ""` of an optional text.
abbrev pub text_or_empty : Option String → String
text_or_empty none = ""
text_or_empty (some s) = s

-- `needle in text`
abbrev pub contains : String → String → Bool
contains text needle = leb (find text needle) (len text)

lower_mixed : lower "0xAbCdEF09" ≡ "0xabcdef09"
unfolding lower
lower_mixed = refl
