-- ===== src/Prelude/Suffix.antt =====
-- `String.prototype.endsWith`, `String.prototype.startsWith` and the removal of characters.
use Prim.Native.String.{String, [], ◌∷◌}
use mathlib.Core.Bool.{Bool, true, false, ◌||◌, ◌&&◌}
use actions_runners.Prelude.Tests.{if◌then◌else◌}
use actions_runners.Prelude.Texts.{str_eq}

unfoldable pub ends_with : String → String → Bool
ends_with [] e = str_eq [] e
ends_with (c ∷ s) e = str_eq (c ∷ s) e || ends_with s e

-- The prefix comes first.
unfoldable pub starts_with : String → String → Bool
starts_with [] s = true
starts_with (c ∷ p) [] = false
starts_with (c ∷ p) (d ∷ s) = str_eq (c ∷ []) (d ∷ []) && starts_with p s

-- The characters that pass the test, each given to it as a text.
unfoldable pub keep_chars : (String → Bool) → String → String
keep_chars p [] = []
keep_chars p (c ∷ s) = let rest = keep_chars p s in if p (c ∷ []) then c ∷ rest else rest
