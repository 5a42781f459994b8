-- ===== src/Models/Suffix.antt =====
-- A name with a suffix in parentheses, for `parseModelName` and what is built on it.
use cmdcode_go.Base.{ℕ, String, ◌^^◌, Bool, eqb}

abbrev pub with_suffix : String → String → String
with_suffix name level = name ^^ ("(" ^^ (level ^^ ")"))

abbrev pub opens : ℕ → Bool
opens c = eqb c b'('

-- The name, with its parentheses closed.
closed : String → String → String
closed name level = name ^^ ("(" ^^ level)
