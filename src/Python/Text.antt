-- ===== src/Python/Text.antt =====
-- `str.lower`, `str.upper` and `str.strip` on ASCII texts; other characters stay as they are.
use Prim.Native.Char.{Char, code}
use model_relay.Prelude.{String, Bool, true, false, ◌||◌, ◌&&◌, leb, if◌then◌else◌, ◌≡◌, refl}

-- The character of `to` that stands where `from` has `c`.
translate : String → String → Char → Char
translate String.[] to c = c
translate (String.◌∷◌ a from) String.[] c = c
translate (String.◌∷◌ a from) (String.◌∷◌ b to) c =
    if leb (code a) (code c) && leb (code c) (code a) then b else translate from to c

abbrev capitals : String
capitals = "ABCDEFGHIJKLMNOPQRSTUVWXYZ"

abbrev smalls : String
smalls = "abcdefghijklmnopqrstuvwxyz"

unfoldable pub lower : String → String
unfolding translate
lower String.[] = String.[]
lower (String.◌∷◌ c s) = String.◌∷◌ (translate capitals smalls c) (lower s)

unfoldable pub upper : String → String
unfolding translate
upper String.[] = String.[]
upper (String.◌∷◌ c s) = String.◌∷◌ (translate smalls capitals c) (upper s)

-- Space, the controls 9 to 13, and the separators 28 to 31.
abbrev is_space : Char → Bool
is_space c = let n = code c in (leb 9 n && leb n 13) || (leb 28 n && leb n 32)

lstrip : String → String
lstrip String.[] = String.[]
lstrip (String.◌∷◌ c s) = let rest = lstrip s in if is_space c then rest else String.◌∷◌ c s

abbrev pub is_blank : String → Bool
is_blank String.[] = true
is_blank (String.◌∷◌ _ _) = false

rstrip : String → String
rstrip String.[] = String.[]
rstrip (String.◌∷◌ c s) =
    let rest = rstrip s in if is_blank rest && is_space c then String.[] else String.◌∷◌ c rest

unfoldable pub strip : String → String
unfolding lstrip rstrip
strip s = rstrip (lstrip s)

normalised : lower (strip "  Auto ") ≡ "auto"
unfolding lower strip
normalised = refl
