-- ===== src/Lines.antt =====
-- Text of the standard library: the lines of a file, `trim` and `starts_with` (of src/auth.rs, src/disk.rs
-- and src/ldk.rs).
pub mod Laws
use f1r3fly_rgb_lightning_no.Common.{
  ℕ, Bool, true, false, ◌&&◌, ◌||◌, List, [], ◌∷◌, Bytes, split, is_empty, ◌==◌, leb, if◌then◌else◌,
}

-- The ASCII bytes that `trim` removes.
unfoldable pub is_whitespace : ℕ → Bool
is_whitespace c = c == 32 || (leb 9 c && leb c 13)

unfoldable pub trim_start : Bytes → Bytes
unfolding is_whitespace
trim_start [] = []
trim_start (c ∷ cs) = let rest = trim_start cs in if is_whitespace c then rest else c ∷ cs

unfoldable pub trim_end : Bytes → Bytes
unfolding is_whitespace
trim_end [] = []
trim_end (c ∷ cs) =
    let rest = trim_end cs in if is_whitespace c && is_empty rest then [] else c ∷ rest

unfoldable pub trim : Bytes → Bytes
unfolding trim_start trim_end
trim s = trim_end (trim_start s)

-- `BufRead::lines`: the last line may lack its end. The carriage return that it drops is one of the
-- bytes that `trim` removes.
unfoldable pub drop_last_empty : List Bytes → List Bytes
drop_last_empty [] = []
drop_last_empty (line ∷ []) = if is_empty line then [] else line ∷ []
drop_last_empty (line ∷ next ∷ rest) = line ∷ drop_last_empty (next ∷ rest)

unfoldable pub lines : Bytes → List Bytes
unfolding drop_last_empty
lines text = drop_last_empty (split 10 text)

-- The carriage return before a line end.
unfoldable pub strip_cr : Bytes → Bytes
strip_cr [] = []
strip_cr (c ∷ []) = if c == 13 then [] else c ∷ []
strip_cr (c ∷ d ∷ s) = c ∷ strip_cr (d ∷ s)

-- `str::starts_with`, the prefix first.
unfoldable pub starts_with : Bytes → Bytes → Bool
starts_with [] s = true
starts_with (p ∷ ps) [] = false
starts_with (p ∷ ps) (c ∷ cs) = p == c && starts_with ps cs
