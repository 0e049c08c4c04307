-- ===== src/Routing/Utf8.antt =====
-- UTF-8, as the standard library's `str::bytes` and `String::from_utf8` have it, for
-- crates/acp-web-frontend/src/routing.rs.
use acp_orchestrator.Common.{
  ℕ, zero, suc, ◌+◌, ◌-◌, ◌*◌, ◌/◌, ◌%◌, Bool, ◌&&◌, ◌||◌, Text, List, [], ◌∷◌, ◌++◌, Option, none,
  some, ltb, leb, if◌then◌else◌,
}

-- A `char` is a code point that is no surrogate.
unfoldable pub is_char : ℕ → Bool
is_char c = ltb c 0xd800 || (leb 0xe000 c && ltb c 0x110000)

unfoldable pub encode_utf8 : ℕ → List ℕ
encode_utf8 c =
    if ltb c 0x80
    then c ∷ []
    else if ltb c 0x800
    then (0xc0 + c / 64) ∷ (0x80 + c % 64) ∷ []
    else if ltb c 0x10000
    then (0xe0 + c / 4096) ∷ (0x80 + c / 64 % 64) ∷ (0x80 + c % 64) ∷ []
    else (0xf0 + c / 262144) ∷ (0x80 + c / 4096 % 64) ∷ (0x80 + c / 64 % 64) ∷ (0x80 + c % 64) ∷ []

-- `str::bytes`
unfoldable pub bytes : Text → List ℕ
unfolding encode_utf8
bytes [] = []
bytes (c ∷ s) = encode_utf8 c ++ bytes s

-- Where the decoder stands: the bytes that the character still needs, its bits so far, and the least
-- character that takes as many bytes.
pub record Partial : Type 0 where
  pub need : ℕ
  pub value : ℕ
  pub least : ℕ

abbrev pub between : Partial
between = record { need = 0; value = 0; least = 0 }

abbrev pub waiting : ℕ → ℕ → ℕ → Partial
waiting need value least = record { need = need; value = value; least = least }

-- The first byte of a character.
unfoldable pub first_byte : ℕ → Option (List ℕ × Partial)
first_byte b =
    if ltb b 0x80
    then some (b ∷ [], between)
    else if ltb b 0xc0
    then none
    else if ltb b 0xe0
    then some ([], waiting 1 (b - 0xc0) 0x80)
    else if ltb b 0xf0
    then some ([], waiting 2 (b - 0xe0) 0x800)
    else if ltb b 0xf8
    then some ([], waiting 3 (b - 0xf0) 0x10000)
    else none

-- A later byte; `left` more are needed behind it.
unfoldable pub later_byte : ℕ → ℕ → ℕ → ℕ → Option (List ℕ × Partial)
unfolding is_char
later_byte left value least b =
    let value' = value * 64 + (b - 0x80) in
    if ltb b 0x80 || leb 0xc0 b then none else elim left [
      | zero ↦ if is_char value' && leb least value' then some (value' ∷ [], between) else none
      | suc n ↦ some ([], waiting (suc n) value' least)
    ]

unfoldable pub take_byte : ℕ → ℕ → ℕ → ℕ → Option (List ℕ × Partial)
unfolding first_byte later_byte
take_byte zero value least b = first_byte b
take_byte (suc left) value least b = later_byte left value least b

abbrev pub onto : List ℕ → Option Text → Option Text
onto out none = none
onto out (some s) = some (out ++ s)

unfoldable pub decode : Partial → List ℕ → Option Text
unfolding take_byte
decode p [] = elim p.need [ zero ↦ some [] | suc n ↦ none ]
decode p (b ∷ bs) = elim (take_byte p.need p.value p.least b) [
  | none ↦ none
  | some (out, p') ↦ onto out (decode p' bs)
]

-- `String::from_utf8`
unfoldable pub from_utf8 : List ℕ → Option Text
unfolding decode
from_utf8 bs = decode between bs
