-- ===== src/Base/Texts.antt =====
-- Text as bytes, and numbers printed in a base.
use Prim.Native.Char.{code}
use Prim.Native.String.{String}
use go_ax.Base.{Bytes, List, [], if◌then◌else◌, ltb, ℕ, ◌%◌, ◌++◌, ◌+◌, ◌/◌, ◌∷◌}

-- The code points of a text, which are its bytes if it is ASCII. `String` has its own constructors.
abbrev pub codes : String → Bytes
codes String.[] = []
codes (String.◌∷◌ c s) = code c ∷ codes s

abbrev pub hex_digit : ℕ → ℕ
hex_digit n = if ltb n 10 then 48 + n else 55 + n

-- `%02X` of a byte.
abbrev pub hex_pair : ℕ → Bytes
hex_pair n = hex_digit (n / 16 % 16) ∷ hex_digit (n % 16) ∷ []

-- `strings.Join`
unfoldable pub join : Bytes → List Bytes → Bytes
join sep [] = []
join sep (p ∷ []) = p
join sep (p ∷ q ∷ ps) = p ++ sep ++ join sep (q ∷ ps)
