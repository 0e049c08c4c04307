-- ===== src/Routing/RoundTrip.antt =====
-- crates/acp-web-frontend/src/routing.rs: what `encode_component` writes, `decode_component` reads.
use acp_orchestrator.Common.{
  not, ℕ, ◌+◌, ◌*◌, ◌/◌, ◌%◌, ◌<◌, ◌≡◌, refl, ap, ◌∙◌, Bool, true, false, ◌&&◌, Text, List, [], ◌∷◌,
  ◌++◌, some, ltb, All, arith, Bool-cases, inl, inr, ◌==◌, nat_eq, nat_eqb,
}
use acp_orchestrator.Routing.Utf8.{is_char, encode_utf8, bytes}
use acp_orchestrator.Routing.Characters.{IsText, is_char-lt, from_utf8-bytes}
use acp_orchestrator.Routing.Percent.{
  is_kept, upper_hex, encode_byte, encode_bytes, encode_component, hex_value, cons_some,
  decode_bytes, decode_component,
}

kept_byte :
    (b : ℕ) (bs : List ℕ)
    → (b == b'%') ≡ false
    → decode_bytes (b ∷ bs) ≡ cons_some (some b) (decode_bytes bs)
unfolding decode_bytes
kept_byte b [] h = rw (h, decode_bytes) refl
kept_byte b (c ∷ []) h = rw (h, decode_bytes) refl
kept_byte b (c ∷ d ∷ bs) h = rw (h, decode_bytes) refl

hex_value-upper_hex : (d : ℕ) → d < 16 → hex_value (upper_hex d) ≡ some d
unfolding hex_value upper_hex
hex_value-upper_hex d h = ground arith

escaped_byte :
    (b : ℕ) (bs : List ℕ)
    → b < 256
    → decode_bytes (b'%' ∷ upper_hex (b / 16) ∷ upper_hex (b % 16) ∷ bs)
      ≡ cons_some (some b) (decode_bytes bs)
unfolding decode_bytes
escaped_byte b bs h =
    let same : b / 16 * 16 + b % 16 ≡ b = omega arith in
    let high : b / 16 < 16 = omega arith in
    let low : b % 16 < 16 = omega arith in
    rw (hex_value-upper_hex (b / 16) high, hex_value-upper_hex (b % 16) low)
      (ap (λ v. cons_some (some v) (decode_bytes bs)) same)

is_kept_plain : (b : ℕ) → is_kept b ≡ true → (b == b'%') ≡ false
unfolding is_kept
is_kept_plain b h = ground arith

decode_bytes-encode_byte :
    (b : ℕ) (bs : List ℕ)
    → b < 256
    → decode_bytes (encode_byte b ++ bs) ≡ cons_some (some b) (decode_bytes bs)
unfolding encode_byte
decode_bytes-encode_byte b bs h = elim (Bool-cases (is_kept b)) [
  | inl kept ↦ rw kept (kept_byte b bs (is_kept_plain b kept))
  | inr other ↦ rw other (escaped_byte b bs h)
]

decode_bytes-encode_bytes :
    (bs : List ℕ) → All (λ b. b < 256) bs → decode_bytes (encode_bytes bs) ≡ some bs
unfolding encode_bytes decode_bytes
decode_bytes-encode_bytes [] h = refl
decode_bytes-encode_bytes (b ∷ bs) h =
    decode_bytes-encode_byte b (encode_bytes bs) h.0
    ∙ ap (cons_some (some b)) (decode_bytes-encode_bytes bs h.1)

-- What the encoder writes: ASCII without the slash.
abbrev pub is_plain : ℕ → Bool
is_plain c = ltb c 0x80 && not (nat_eqb c b'/')

abbrev pub IsPlain : Text → Type 0
IsPlain s = All (λ c. is_plain c ≡ true) s

All-append : (P : ℕ → Type 0) (xs ys : List ℕ) → All P xs → All P ys → All P (xs ++ ys)
All-append P [] ys h k = k
All-append P (x ∷ xs) ys h k = (h.0, All-append P xs ys h.1 k)

is_plain-upper_hex : (d : ℕ) → d < 16 → is_plain (upper_hex d) ≡ true
unfolding upper_hex
is_plain-upper_hex d h = ground arith

is_plain-kept : (b : ℕ) → is_kept b ≡ true → is_plain b ≡ true
unfolding is_kept
is_plain-kept b h = ground arith

escape_IsPlain : (b : ℕ) → b < 256 → IsPlain (b'%' ∷ upper_hex (b / 16) ∷ upper_hex (b % 16) ∷ [])
escape_IsPlain b h =
    let high = is_plain-upper_hex (b / 16) (omega arith) in
    let low = is_plain-upper_hex (b % 16) (omega arith) in (refl, (high, (low, tt)))

encode_byte-IsPlain : (b : ℕ) → b < 256 → IsPlain (encode_byte b)
unfolding encode_byte
encode_byte-IsPlain b h = elim (Bool-cases (is_kept b)) [
  | inl kept ↦ rw kept (is_plain-kept b kept, tt)
  | inr other ↦ rw other (escape_IsPlain b h)
]

encode_bytes-IsPlain : (bs : List ℕ) → All (λ b. b < 256) bs → IsPlain (encode_bytes bs)
unfolding encode_bytes
encode_bytes-IsPlain [] h = tt
encode_bytes-IsPlain (b ∷ bs) h =
    All-append (λ c. is_plain c ≡ true) (encode_byte b) _ (encode_byte-IsPlain b h.0)
      (encode_bytes-IsPlain bs h.1)

bytes_plain : (s : Text) → IsPlain s → bytes s ≡ s
unfolding bytes encode_utf8
bytes_plain [] h = refl
bytes_plain (c ∷ s) h =
    let ascii : ltb c 0x80 ≡ true = ground arith in rw ascii (ap (◌∷◌ c) (bytes_plain s h.1))

encode_utf8-bytes : (c : ℕ) → is_char c ≡ true → All (λ b. b < 256) (encode_utf8 c)
unfolding encode_utf8
encode_utf8-bytes c h = elim (Bool-cases (ltb c 0x80)) [
  | inl a ↦ rw a (ground arith, tt)
  | inr a ↦ elim (Bool-cases (ltb c 0x800)) [
    | inl b ↦ rw (a, b) (ground arith, (omega arith, tt))
    | inr b ↦ elim (Bool-cases (ltb c 0x10000)) [
      | inl d ↦ rw (a, b, d) (ground arith, (omega arith, (omega arith, tt)))
      | inr d ↦
          rw (a, b, d)
            (omega (arith, is_char-lt c h), (omega arith, (omega arith, (omega arith, tt))))
    ]
  ]
]

bytes_small : (s : Text) → IsText s → All (λ b. b < 256) (bytes s)
unfolding bytes
bytes_small [] h = tt
bytes_small (c ∷ s) h =
    All-append (λ x. x < 256) (encode_utf8 c) _ (encode_utf8-bytes c h.0) (bytes_small s h.1)

pub encode_component-IsPlain : (s : Text) → IsText s → IsPlain (encode_component s)
unfolding encode_component
encode_component-IsPlain s h = encode_bytes-IsPlain (bytes s) (bytes_small s h)

-- Every text of valid characters is read back from its percent encoding.
pub decode_component-encode_component :
    (s : Text) → IsText s → decode_component (encode_component s) ≡ some s
unfolding decode_component encode_component
decode_component-encode_component s h =
    rw
      (
        bytes_plain (encode_bytes (bytes s)) (encode_bytes-IsPlain (bytes s) (bytes_small s h)),
        decode_bytes-encode_bytes (bytes s) (bytes_small s h),
      )
      (from_utf8-bytes s h)
