-- ===== src/Prelude/Bytes.antt =====
-- Byte strings: addresses and texts that the code walks byte by byte.
use Prim.Native.Char.{code}
use Prim.Native.String.{String}
use fie_importer.Prelude.{ℕ, List, [], ◌∷◌}

abbrev pub Bytes : Type 0
Bytes = List ℕ

-- The bytes of an ASCII literal.
abbrev pub codes : String → Bytes
codes String.[] = []
codes (String.◌∷◌ c s) = code c ∷ codes s
