-- ===== src/Text/Words.antt =====
-- `str.split()` at runs of white space, and `" ".join`.
use Prim.Native.Char.{code}
use Prim.Native.String.{◌∷◌, [], ◌++◌}
use sharpe_nova_os.Prelude.{List, [], ◌∷◌, String, ◌==◌, if◌then◌else◌}
use sharpe_nova_os.Text.{is_space}
use sharpe_nova_os.Text.Split.{extend_first}

-- The parts between single characters of white space, some of them empty.
unfoldable pub split_spaces : String → List String
split_spaces [] = [] ∷ []
split_spaces (c ∷ text) =
    let parts = split_spaces text in if is_space (code c) then [] ∷ parts else extend_first c parts

-- `text.split()`
unfoldable pub nonempty : List String → List String
nonempty [] = []
nonempty (part ∷ parts) = let rest = nonempty parts in if part == "" then rest else part ∷ rest

-- `" ".join(parts)`
unfoldable pub join_spaced : List String → String
join_spaced [] = ""
join_spaced (part ∷ []) = part
join_spaced (part ∷ next ∷ parts) = part ++ " " ++ join_spaced (next ∷ parts)
