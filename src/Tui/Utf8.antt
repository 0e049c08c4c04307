-- ===== src/Tui/Utf8.antt =====
-- Byte offsets into a string of code points, as Rust's `str` has them.
use acp_orchestrator.Common.{
  ℕ, ◌+◌, ◌-◌, Text, [], ◌∷◌, Option, none, some, ltb, if◌then◌else◌, ◌==◌, nat_eq,
}

-- `char::len_utf8`
unfoldable pub len_utf8 : ℕ → ℕ
len_utf8 c = if ltb c 0x80 then 1 else if ltb c 0x800 then 2 else if ltb c 0x10000 then 3 else 4

-- `str::len`
unfoldable pub len : Text → ℕ
len [] = 0
len (c ∷ s) = len_utf8 c + len s

-- `(&s[..n], &s[n..])`; `none` is the panic where `n` is not on a boundary of characters.
unfoldable pub split_bytes : ℕ → Text → Option (Text × Text)
unfolding len_utf8
split_bytes n [] = if n == 0 then some ([], []) else none
split_bytes n (c ∷ s) =
    let rest = split_bytes (n - len_utf8 c) s in
    if n == 0
    then some ([], c ∷ s)
    else if ltb n (len_utf8 c)
    then none
    else elim rest [ none ↦ none | some (before, after) ↦ some (c ∷ before, after) ]

-- The text without its last character.
unfoldable pub without_last : Text → Text
without_last [] = []
without_last (c ∷ []) = []
without_last (c ∷ d ∷ s) = c ∷ without_last (d ∷ s)

-- `s.char_indices().last().map(|(index, _)| index).unwrap_or(0)`
unfoldable pub last_index : Text → ℕ
unfolding len without_last
last_index s = len (without_last s)

-- `str::rsplit_once`, at a character
unfoldable pub rsplit_once : ℕ → Text → Option (Text × Text)
rsplit_once sep [] = none
rsplit_once sep (c ∷ s) = elim (rsplit_once sep s) [
  | none ↦ if c == sep then some ([], s) else none
  | some (before, after) ↦ some (c ∷ before, after)
]
