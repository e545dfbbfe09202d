-- ===== src/Text.antt =====
-- Text constants of the program as their bytes, which are their code points as they are ASCII.
use Prim.Native.Char.{code}
use Prim.Native.String.{String}
use blue_pods.Prelude.{ℕ, List, [], ◌∷◌}

abbrev pub codes : String → List ℕ
codes String.[] = []
codes (String.◌∷◌ c s) = code c ∷ codes s
