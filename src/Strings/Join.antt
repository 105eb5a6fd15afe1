-- ===== src/Strings/Join.antt =====
-- `strings.Join`.
use zbplan.Prelude.{List, [], ◌∷◌, ◌++◌, Bytes}

unfoldable pub join_with : Bytes → List Bytes → Bytes
join_with sep [] = []
join_with sep (part ∷ []) = part
join_with sep (part ∷ part' ∷ parts) = part ++ (sep ++ join_with sep (part' ∷ parts))
