-- ===== src/Base/Text.antt =====
-- Template strings: concatenation by recursion on the first text, which computes at literals.
use Prim.Native.String.{String}

unfoldable pub concat : String → String → String
concat String.[] t = t
concat (String.◌∷◌ c s) t = String.◌∷◌ c (concat s t)
