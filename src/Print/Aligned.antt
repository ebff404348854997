-- ===== src/Print/Aligned.antt =====
-- The columns of a printed table are aligned.
use dyod_so_se.Prelude.Text.{Text}
use dyod_so_se.Prelude.{ℕ, suc, ◌+◌, List, [], ◌∷◌}
use dyod_so_se.Chunk.{Chunk}
use dyod_so_se.Table
use dyod_so_se.Table.{Table}

-- the characters of a line, behind its first `|`
abbrev pub line_width : List ℕ → ℕ
line_width [] = 0
line_width (w ∷ ws) = w + suc (line_width ws)
