-- ===== src/Routing/Percent.antt =====
-- Percent encoding, in crates/acp-web-frontend/src/routing.rs.
use acp_orchestrator.Common.{
  ℕ, ◌+◌, ◌-◌, ◌*◌, ◌/◌, ◌%◌, Bool, true, false, ◌&&◌, ◌||◌, Text, List, [], ◌∷◌, ◌++◌, Option,
  none, some, ltb, leb, if◌then◌else◌, ◌==◌, nat_eq,
}
use acp_orchestrator.Routing.Utf8.{bytes, from_utf8}

abbrev pub is_alphanumeric : ℕ → Bool
is_alphanumeric b =
    (leb b'0' b && leb b b'9') || (leb b'A' b && leb b b'Z') || (leb b'a' b && leb b b'z')

-- The bytes that `encode_component` keeps.
unfoldable pub is_kept : ℕ → Bool
is_kept b = is_alphanumeric b || b == b'-' || b == b'.' || b == b'_' || b == b'~'

-- A digit of `{byte:02X}`
unfoldable pub upper_hex : ℕ → ℕ
upper_hex d = if ltb d 10 then b'0' + d else b'A' + (d - 10)

unfoldable pub encode_byte : ℕ → Text
unfolding is_kept upper_hex
encode_byte b = if is_kept b then b ∷ [] else b'%' ∷ upper_hex (b / 16) ∷ upper_hex (b % 16) ∷ []

unfoldable pub encode_bytes : List ℕ → Text
unfolding encode_byte
encode_bytes [] = []
encode_bytes (b ∷ bs) = encode_byte b ++ encode_bytes bs

-- `encode_component`
unfoldable pub encode_component : Text → Text
unfolding encode_bytes bytes
encode_component value = encode_bytes (bytes value)

-- `hex_value`
unfoldable pub hex_value : ℕ → Option ℕ
hex_value b =
    if leb b'0' b && leb b b'9'
    then some (b - b'0')
    else if leb b'a' b && leb b b'f'
    then some (b - b'a' + 10)
    else if leb b'A' b && leb b b'F'
    then some (b - b'A' + 10)
    else none

-- `(hex_value(high)? << 4) | hex_value(low)?`
abbrev pub hex_pair : Option ℕ → Option ℕ → Option ℕ
hex_pair (some high) (some low) = some (high * 16 + low)
hex_pair _ _ = none

abbrev pub cons_some : Option ℕ → Option (List ℕ) → Option (List ℕ)
cons_some (some b) (some bs) = some (b ∷ bs)
cons_some _ _ = none

-- The loop of `decode_component`, on the bytes that are left.
unfoldable pub decode_bytes : List ℕ → Option (List ℕ)
unfolding hex_value
decode_bytes [] = some []
decode_bytes (b ∷ []) = if b == b'%' then none else some (b ∷ [])
decode_bytes (b ∷ high ∷ []) = elim (b == b'%') [
  | true ↦ none
  | false ↦ cons_some (some b) (decode_bytes (high ∷ []))
]
decode_bytes (b ∷ high ∷ low ∷ bs) = elim (b == b'%') [
  | true ↦ cons_some (hex_pair (hex_value high) (hex_value low)) (decode_bytes bs)
  | false ↦ cons_some (some b) (decode_bytes (high ∷ low ∷ bs))
]

abbrev pub text_of : Option (List ℕ) → Option Text
text_of none = none
text_of (some bs) = from_utf8 bs

-- `decode_component`
unfoldable pub decode_component : Text → Option Text
unfolding decode_bytes bytes from_utf8
decode_component value = text_of (decode_bytes (bytes value))
