-- ===== src/Text/Split.antt =====
-- `str.split` at a character, and the stripped parts that are left.
use Prim.Native.Char.{Char, code}
use Prim.Native.String.{◌∷◌, []}
use sharpe_nova_os.Prelude.{ℕ, List, [], ◌∷◌, String, ◌==◌, eqb, if◌then◌else◌}
use sharpe_nova_os.Text.{strip}

-- `c` in front of the first part.
abbrev pub extend_first : Char → List String → List String
extend_first c [] = (c ∷ []) ∷ []
extend_first c (part ∷ parts) = (c ∷ part) ∷ parts

-- `text.split(separator)`, which has at least one part.
unfoldable pub split_at : ℕ → String → List String
split_at separator [] = [] ∷ []
split_at separator (c ∷ text) =
    let parts = split_at separator text in
    if eqb (code c) separator then [] ∷ parts else extend_first c parts

-- `[part.strip() for part in parts if part.strip()]`
unfoldable pub stripped_parts : List String → List String
stripped_parts [] = []
stripped_parts (part ∷ parts) =
    let rest = stripped_parts parts in if strip part == "" then rest else strip part ∷ rest
