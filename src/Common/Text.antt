-- ===== src/Common/Text.antt =====
-- Texts. A string of the program is a `String`, which is compared as a whole or walked by its
-- characters.
use Prim.Native.String
use Prim.Native.String.{String}
use mathlib.Core.Path.{◌≡◌}
use mathlib.Core.Bool.{Bool, true, false}
use mathlib.Core.Option.{Option, none, some}
use mathlib.Core.List.{List, [], ◌∷◌}
use text.Mathlib.Text.{◌==◌}
use text.Mathlib.TextEquality.{eq_iff}

infixr 66 ◌^^◌
-- the concatenation of a template string
abbrev pub ◌^^◌ : String → String → String
s ^^ t = String.◌++◌ s t

-- `===` on strings
abbrev pub str_eq : String → String → Bool
str_eq s t = s == t

pub str_eq_iff : (s t : String) → ((str_eq s t ≡ true) → s ≡ t) × (s ≡ t → str_eq s t ≡ true)
str_eq_iff s t = eq_iff s t

-- the truth value of a string, which is false at ""
abbrev pub filled : String → Bool
filled String.[] = false
filled (String.◌∷◌ _ _) = true

-- the truth value of `string | null`
abbrev pub filled? : Option String → Bool
filled? none = false
filled? (some s) = filled s

-- `o || d` for `string | null`
abbrev pub or_text : Option String → String → String
or_text none d = d
or_text (some String.[]) d = d
or_text (some (String.◌∷◌ c s)) d = String.◌∷◌ c s

-- `xs.join(separator)`
abbrev pub join : String → List String → String
join sep [] = ""
join sep (s ∷ []) = s
join sep (s ∷ t ∷ ss) = s ^^ sep ^^ join sep (t ∷ ss)
