-- ===== src/Base/Utf8.antt =====
-- UTF-8: the bytes of a text (`str::as_bytes`), and the strict decoder (`str::from_utf8`), which
-- refuses overlong forms, surrogates and what lies above U+10FFFF.
use Prim.Native.Nat.{ℕ, zero, suc, ◌+◌, ◌-◌, ◌*◌, ◌/◌, ◌%◌, ◌<◌, ◌≤◌}
use mathlib.Core.Path.{◌≡◌, refl, ap, ◌∙◌}
use mathlib.Core.Logic.{◌⊎◌, inl, inr}
use mathlib.Core.Bool.{true, false, ◌&&◌}
use mathlib.Core.Option.{Option, none, some}
use mathlib.Core.List.{List, [], ◌∷◌, ◌++◌}
use native.Mathlib.Omega.{arith}
use wftpd_linux.Base.Tests.{leb, ltb, ◌==◌, if◌then◌else◌, Bool-cases}
use wftpd_linux.Base.Lists.{All}
use wftpd_linux.Base.Texts.{Text}

-- A Unicode scalar value.
abbrev pub IsScalar : ℕ → Type 0
IsScalar c = (c < 0xd800) ⊎ ((0xe000 ≤ c) × (c < 0x110000))

unfoldable pub char_bytes : ℕ → List ℕ
char_bytes c =
    if ltb c 0x80
    then c ∷ []
    else if ltb c 0x800
    then (0xc0 + c / 64) ∷ (0x80 + c % 64) ∷ []
    else if ltb c 0x10000
    then (0xe0 + c / 4096) ∷ (0x80 + c / 64 % 64) ∷ (0x80 + c % 64) ∷ []
    else (0xf0 + c / 262144) ∷ (0x80 + c / 4096 % 64) ∷ (0x80 + c / 64 % 64) ∷ (0x80 + c % 64) ∷ []

abbrev pub utf8_bytes : Text → List ℕ
utf8_bytes [] = []
utf8_bytes (c ∷ s) = char_bytes c ++ utf8_bytes s

-- What the decoder waits for: continuation bytes, the next of which lies between the two bounds.
pub record Pending : Type 0 where
  pub needed : ℕ
  pub sofar : ℕ
  pub lowest : ℕ
  pub highest : ℕ

abbrev pub idle : Pending
idle = record { needed = 0; sofar = 0; lowest = 0x80; highest = 0xbf }

abbrev pub waiting : ℕ → ℕ → ℕ → ℕ → Option Pending
waiting n acc lo hi = some (record { needed = n; sofar = acc; lowest = lo; highest = hi })

-- The first byte of a sequence of several.
unfoldable pub lead_byte : ℕ → Option Pending
lead_byte b =
    if leb 0xc2 b && leb b 0xdf
    then waiting 1 (b - 0xc0) 0x80 0xbf
    else if b == 0xe0
    then waiting 2 0 0xa0 0xbf
    else if b == 0xed
    then waiting 2 13 0x80 0x9f
    else if leb 0xe1 b && leb b 0xef
    then waiting 2 (b - 0xe0) 0x80 0xbf
    else if b == 0xf0
    then waiting 3 0 0x90 0xbf
    else if leb 0xf1 b && leb b 0xf3
    then waiting 3 (b - 0xf0) 0x80 0xbf
    else if b == 0xf4
    then waiting 3 4 0x80 0x8f
    else none

abbrev pub push_char : ℕ → Option Text → Option Text
push_char c none = none
push_char c (some s) = some (c ∷ s)

unfoldable pub decode_from : ℕ → ℕ → ℕ → ℕ → List ℕ → Option Text
decode_from zero acc lo hi [] = some []
decode_from (suc n) acc lo hi [] = none
decode_from zero acc lo hi (b ∷ s) = elim (ltb b 0x80) [
  | true ↦ push_char b (decode_from 0 0 0x80 0xbf s)
  | false ↦ elim (lead_byte b) [
    | none ↦ none
    | some p ↦ decode_from p.needed p.sofar p.lowest p.highest s
  ]
]
decode_from (suc zero) acc lo hi (b ∷ s) = elim (leb lo b && leb b hi) [
  | true ↦ push_char (acc * 64 + (b - 0x80)) (decode_from 0 0 0x80 0xbf s)
  | false ↦ none
]
decode_from (suc (suc n)) acc lo hi (b ∷ s) = elim (leb lo b && leb b hi) [
  | true ↦ decode_from (suc n) (acc * 64 + (b - 0x80)) 0x80 0xbf s
  | false ↦ none
]

unfoldable pub from_utf8 : List ℕ → Option Text
from_utf8 bytes = decode_from 0 0 0x80 0xbf bytes

-- A continuation byte within its bounds is taken.
last_byte :
    (acc lo hi b : ℕ) (s : List ℕ)
    → lo ≤ b
    → b ≤ hi
    → decode_from 1 acc lo hi (b ∷ s)
      ≡ push_char (acc * 64 + (b - 0x80)) (decode_from 0 0 0x80 0xbf s)
unfolding decode_from
last_byte acc lo hi b s l h = ground arith

inner_byte :
    (n acc lo hi b : ℕ) (s : List ℕ)
    → lo ≤ b
    → b ≤ hi
    → decode_from (suc (suc n)) acc lo hi (b ∷ s)
      ≡ decode_from (suc n) (acc * 64 + (b - 0x80)) 0x80 0xbf s
unfolding decode_from
inner_byte n acc lo hi b s l h = ground arith

first_byte :
    (b : ℕ) (s : List ℕ) (p : Pending)
    → 0x80 ≤ b
    → lead_byte b ≡ some p
    → decode_from 0 0 0x80 0xbf (b ∷ s) ≡ decode_from p.needed p.sofar p.lowest p.highest s
unfolding decode_from
first_byte b s p h e = ground (arith, e)

lead_two : (c : ℕ) → 0x80 ≤ c → c < 0x800 → lead_byte (0xc0 + c / 64) ≡ waiting 1 (c / 64) 0x80 0xbf
unfolding lead_byte
lead_two c l h = ground (arith, ap (λ n. waiting 1 n 0x80 0xbf) (lead_back (c / 64)))
  where
    lead_back : (n : ℕ) → 0xc0 + n - 0xc0 ≡ n
    lead_back n = omega arith

-- The bounds on the byte that follows, by the bits in the first one.
abbrev second_of_three : ℕ → ℕ × ℕ
second_of_three n = (if n == 0 then 0xa0 else 0x80, if n == 13 then 0x9f else 0xbf)

abbrev second_of_four : ℕ → ℕ × ℕ
second_of_four n = (if n == 0 then 0x90 else 0x80, if n == 4 then 0x8f else 0xbf)

lead_three :
    (n : ℕ)
    → n < 16
    → lead_byte (0xe0 + n) ≡ waiting 2 n (second_of_three n).0 (second_of_three n).1
unfolding lead_byte
lead_three n h = ground arith

lead_four :
    (n : ℕ) → n < 5 → lead_byte (0xf0 + n) ≡ waiting 3 n (second_of_four n).0 (second_of_four n).1
unfolding lead_byte
lead_four n h = ground arith

-- They let the second byte of a scalar value through.
second_three :
    (c : ℕ)
    → IsScalar c
    → 0x800 ≤ c
    → c < 0x10000
    → ((second_of_three (c / 4096)).0 ≤ 0x80 + c / 64 % 64)
      × (0x80 + c / 64 % 64 ≤ (second_of_three (c / 4096)).1)
second_three c scalar l h = ground arith

second_four :
    (c : ℕ)
    → IsScalar c
    → 0x10000 ≤ c
    → ((second_of_four (c / 262144)).0 ≤ 0x80 + c / 4096 % 64)
      × (0x80 + c / 4096 % 64 ≤ (second_of_four (c / 262144)).1)
second_four c scalar l = ground arith

chars_two :
    (c : ℕ) (s : List ℕ)
    → 0x80 ≤ c
    → c < 0x800
    → decode_from 0 0 0x80 0xbf ((0xc0 + c / 64) ∷ (0x80 + c % 64) ∷ s)
      ≡ push_char c (decode_from 0 0 0x80 0xbf s)
chars_two c s l h =
    first_byte (0xc0 + c / 64) _ _ (omega arith) (lead_two c l h)
    ∙ last_byte (c / 64) 0x80 0xbf (0x80 + c % 64) s (omega arith) (omega arith)
    ∙ ap (λ d. push_char d (decode_from 0 0 0x80 0xbf s)) (whole c)
  where
    whole : (c : ℕ) → c / 64 * 64 + (0x80 + c % 64 - 0x80) ≡ c
    whole c = omega arith

chars_three :
    (c : ℕ) (s : List ℕ)
    → IsScalar c
    → 0x800 ≤ c
    → c < 0x10000
    → decode_from 0 0 0x80 0xbf ((0xe0 + c / 4096) ∷ (0x80 + c / 64 % 64) ∷ (0x80 + c % 64) ∷ s)
      ≡ push_char c (decode_from 0 0 0x80 0xbf s)
chars_three c s scalar l h =
    let bounds = second_three c scalar l h in
    first_byte (0xe0 + c / 4096) _ _ (omega arith) (lead_three (c / 4096) (omega arith))
    ∙ inner_byte 0 (c / 4096) _ _ (0x80 + c / 64 % 64) _ bounds.0 bounds.1
    ∙ last_byte _ 0x80 0xbf (0x80 + c % 64) s (omega arith) (omega arith)
    ∙ ap (λ d. push_char d (decode_from 0 0 0x80 0xbf s)) (whole c)
  where
    whole :
        (c : ℕ) → (c / 4096 * 64 + (0x80 + c / 64 % 64 - 0x80)) * 64 + (0x80 + c % 64 - 0x80) ≡ c
    whole c = omega arith

chars_four :
    (c : ℕ) (s : List ℕ)
    → IsScalar c
    → 0x10000 ≤ c
    → decode_from 0 0 0x80 0xbf
        ((0xf0 + c / 262144) ∷ (0x80 + c / 4096 % 64) ∷ (0x80 + c / 64 % 64) ∷ (0x80 + c % 64) ∷ s)
      ≡ push_char c (decode_from 0 0 0x80 0xbf s)
chars_four c s scalar l =
    let bounds = second_four c scalar l in
    first_byte (0xf0 + c / 262144) _ _ (omega arith) (lead_four (c / 262144) (ground arith))
    ∙ inner_byte 1 (c / 262144) _ _ (0x80 + c / 4096 % 64) _ bounds.0 bounds.1
    ∙ inner_byte 0 _ 0x80 0xbf (0x80 + c / 64 % 64) _ (omega arith) (omega arith)
    ∙ last_byte _ 0x80 0xbf (0x80 + c % 64) s (omega arith) (omega arith)
    ∙ ap (λ d. push_char d (decode_from 0 0 0x80 0xbf s)) (whole c)
  where
    whole :
        (c : ℕ)
        → ((c / 262144 * 64 + (0x80 + c / 4096 % 64 - 0x80)) * 64 + (0x80 + c / 64 % 64 - 0x80))
              * 64
            + (0x80 + c % 64 - 0x80)
          ≡ c
    whole c = omega arith

ascii :
    (c : ℕ) (s : List ℕ)
    → ltb c 0x80 ≡ true
    → decode_from 0 0 0x80 0xbf (c ∷ s) ≡ push_char c (decode_from 0 0 0x80 0xbf s)
unfolding decode_from
ascii c s e = rw (decode_from, e) refl

decode-char :
    (c : ℕ) (s : List ℕ)
    → IsScalar c
    → decode_from 0 0 0x80 0xbf (char_bytes c ++ s) ≡ push_char c (decode_from 0 0 0x80 0xbf s)
unfolding char_bytes
decode-char c s scalar = elim (Bool-cases (ltb c 0x80)) [
  | inl one ↦ rw one (ascii c s one)
  | inr more ↦ rw more (elim (Bool-cases (ltb c 0x800)) [
    | inl two ↦ rw two (chars_two c s (ground arith) (ground arith))
    | inr longer ↦ rw longer (elim (Bool-cases (ltb c 0x10000)) [
      | inl three ↦ rw three (chars_three c s scalar (ground arith) (ground arith))
      | inr four ↦ rw four (chars_four c s scalar (ground arith))
    ])
  ])
]

-- The decoder reads back what the encoder wrote.
pub from_utf8-bytes : (s : Text) → All IsScalar s → from_utf8 (utf8_bytes s) ≡ some s
unfolding from_utf8 decode_from
from_utf8-bytes [] h = refl
from_utf8-bytes (c ∷ s) h =
    decode-char c (utf8_bytes s) h.0 ∙ ap (push_char c) (from_utf8-bytes s h.1)
