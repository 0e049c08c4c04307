-- ===== src/Routing/Characters.antt =====
-- crates/acp-web-frontend/src/routing.rs: a text is read back from its bytes.
use acp_orchestrator.Common.{
  ℕ, suc, ◌+◌, ◌-◌, ◌*◌, ◌/◌, ◌%◌, ◌<◌, ◌≡◌, refl, ap, ◌∙◌, true, false, ◌||◌, Text, List, [], ◌∷◌,
  ◌++◌, Option, none, some, ltb, leb, All, arith, Bool-cases, inl, inr, ltb→lt,
}
use acp_orchestrator.Routing.Utf8.{
  is_char, encode_utf8, bytes, Partial, between, waiting, take_byte, first_byte, later_byte, onto,
  decode, from_utf8,
}

-- A Rust string: every code point is a `char`.
abbrev pub IsText : Text → Type 0
IsText s = All (λ c. is_char c ≡ true) s

read :
    (p p' : Partial) (b : ℕ) (bs : List ℕ) (out : Text)
    → take_byte p.need p.value p.least b ≡ some (out, p')
    → decode p (b ∷ bs) ≡ onto out (decode p' bs)
unfolding decode
read p p' b bs out h = rw (h, decode) refl

onto_nothing : (o : Option Text) → onto [] o ≡ o
onto_nothing none = refl
onto_nothing (some s) = refl

read_on :
    (p p' : Partial) (b : ℕ) (bs : List ℕ)
    → take_byte p.need p.value p.least b ≡ some ([], p')
    → decode p (b ∷ bs) ≡ decode p' bs
read_on p p' b bs h = read p p' b bs [] h ∙ onto_nothing (decode p' bs)

first_one : (c : ℕ) → c < 0x80 → take_byte 0 0 0 c ≡ some (c ∷ [], between)
unfolding take_byte first_byte
first_one c h = ground arith

pub is_char-lt : (c : ℕ) → is_char c ≡ true → c < 0x110000
unfolding is_char
is_char-lt c h = ground arith

first_two : (q : ℕ) → q < 32 → take_byte 0 0 0 (0xc0 + q) ≡ some ([], waiting 1 q 0x80)
unfolding take_byte first_byte
first_two q h = ground arith

first_three : (q : ℕ) → q < 16 → take_byte 0 0 0 (0xe0 + q) ≡ some ([], waiting 2 q 0x800)
unfolding take_byte first_byte
first_three q h = ground arith

first_four : (q : ℕ) → q < 8 → take_byte 0 0 0 (0xf0 + q) ≡ some ([], waiting 3 q 0x10000)
unfolding take_byte first_byte
first_four q h = ground arith

further :
    (n v l r : ℕ)
    → r < 64
    → take_byte (suc (suc n)) v l (0x80 + r) ≡ some ([], waiting (suc n) (v * 64 + r) l)
unfolding take_byte later_byte
further n v l r h = ground arith

follows : (r : ℕ) → r < 64 → (ltb (0x80 + r) 0x80 || leb 0xc0 (0x80 + r)) ≡ false
follows r h = ground arith

last :
    (v l r c : ℕ)
    → r < 64
    → v * 64 + r ≡ c
    → is_char c ≡ true
    → leb l c ≡ true
    → take_byte 1 v l (0x80 + r) ≡ some (c ∷ [], between)
unfolding take_byte
last v l r c h e valid large =
    let whole : v * 64 + (0x80 + r - 0x80) ≡ c = omega arith in
    rw (follows r h, later_byte) (rw (whole, valid, large) refl)

-- The four kinds of character, by their bytes.
one_byte :
    (c : ℕ) (bs : List ℕ) → c < 0x80 → decode between (c ∷ bs) ≡ onto (c ∷ []) (decode between bs)
one_byte c bs small = read between between c bs (c ∷ []) (first_one c small)

two_bytes :
    (c : ℕ) (bs : List ℕ)
    → is_char c ≡ true
    → leb 0x80 c ≡ true
    → c < 0x800
    → decode between ((0xc0 + c / 64) ∷ (0x80 + c % 64) ∷ bs) ≡ onto (c ∷ []) (decode between bs)
two_bytes c bs valid large small =
    let start = waiting 1 (c / 64) 0x80 in
    read_on between start _ _ (first_two (c / 64) (omega arith))
    ∙ read start between _ bs (c ∷ [])
        (last (c / 64) 0x80 (c % 64) c (omega arith) (omega arith) valid large)

three_bytes :
    (c : ℕ) (bs : List ℕ)
    → is_char c ≡ true
    → leb 0x800 c ≡ true
    → c < 0x10000
    → decode between ((0xe0 + c / 4096) ∷ (0x80 + c / 64 % 64) ∷ (0x80 + c % 64) ∷ bs)
      ≡ onto (c ∷ []) (decode between bs)
three_bytes c bs valid large small =
    let start = waiting 2 (c / 4096) 0x800 in
    let second = waiting 1 (c / 4096 * 64 + c / 64 % 64) 0x800 in
    read_on between start _ _ (first_three (c / 4096) (omega arith))
    ∙ read_on start second _ _ (further 0 (c / 4096) 0x800 (c / 64 % 64) (omega arith))
    ∙ read second between _ bs (c ∷ []) (
        last (c / 4096 * 64 + c / 64 % 64) 0x800 (c % 64) c (omega arith) (omega arith) valid large)

four_bytes :
    (c : ℕ) (bs : List ℕ)
    → is_char c ≡ true
    → leb 0x10000 c ≡ true
    → c < 0x110000
    → decode between
        ((0xf0 + c / 262144) ∷ (0x80 + c / 4096 % 64) ∷ (0x80 + c / 64 % 64) ∷ (0x80 + c % 64) ∷ bs)
      ≡ onto (c ∷ []) (decode between bs)
four_bytes c bs valid large small =
    let start = waiting 3 (c / 262144) 0x10000 in
    let second = waiting 2 (c / 262144 * 64 + c / 4096 % 64) 0x10000 in
    let third = waiting 1 ((c / 262144 * 64 + c / 4096 % 64) * 64 + c / 64 % 64) 0x10000 in
    read_on between start _ _ (first_four (c / 262144) (omega arith))
    ∙ read_on start second _ _ (further 1 (c / 262144) 0x10000 (c / 4096 % 64) (omega arith))
    ∙ read_on second third _ _
        (further 0 (c / 262144 * 64 + c / 4096 % 64) 0x10000 (c / 64 % 64) (omega arith))
    ∙ read third between _ bs (c ∷ []) (
        last ((c / 262144 * 64 + c / 4096 % 64) * 64 + c / 64 % 64) 0x10000 (c % 64) c (omega arith)
          (omega arith) valid large)

decode-encode_utf8 :
    (c : ℕ) (bs : List ℕ)
    → is_char c ≡ true
    → decode between (encode_utf8 c ++ bs) ≡ onto (c ∷ []) (decode between bs)
unfolding encode_utf8
decode-encode_utf8 c bs valid = elim (Bool-cases (ltb c 0x80)) [
  | inl a ↦ rw a (one_byte c bs (ltb→lt c 0x80 a))
  | inr a ↦ elim (Bool-cases (ltb c 0x800)) [
    | inl b ↦ rw (a, b) (two_bytes c bs valid (ground arith) (ltb→lt c 0x800 b))
    | inr b ↦ elim (Bool-cases (ltb c 0x10000)) [
      | inl d ↦ rw (a, b, d) (three_bytes c bs valid (ground arith) (ltb→lt c 0x10000 d))
      | inr d ↦ rw (a, b, d) (four_bytes c bs valid (ground arith) (is_char-lt c valid))
    ]
  ]
]

-- A Rust string is read back from its bytes.
pub from_utf8-bytes : (s : Text) → IsText s → from_utf8 (bytes s) ≡ some s
unfolding from_utf8 bytes decode
from_utf8-bytes [] h = refl
from_utf8-bytes (c ∷ s) h =
    decode-encode_utf8 c (bytes s) h.0 ∙ ap (onto (c ∷ [])) (from_utf8-bytes s h.1)
