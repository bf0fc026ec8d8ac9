-- ===== src/Proto/Codec/Varint/RoundTrip.antt =====
-- Varints read back what was written, and only the bytes that would be written are read.
use candy_runtime.Prelude.{
  ℕ, zero, suc, ◌+◌, ◌*◌, ◌/◌, ◌%◌, ◌^◌, ◌<◌, ◌≡◌, refl, ap, ◌∙◌, List, [], ◌∷◌, ◌++◌, some, arith,
  bit_and, bit_or,
}
use candy_runtime.Prelude.Bits.{bit_and_low, bit_and_top, bit_or_top, bit_or_apart}
use candy_runtime.Prelude.Loops.{falls}
use candy_runtime.Proto.Codec.Varint.{
  encode_loop, encode_varint, decode_loop, decode_varint, shifts_down,
}
use mathlib.Core.Logic.{dif_pos, dif_neg}
use mathlib.Core.WellFounded.{Acc}
use native.Mathlib.Decide.{dec_lt}
use native.Mathlib.Nat.{div-add-mod}
use native.Mathlib.Bridge.{le_prop}
use native.Mathlib.Numerals.{towards_suc}

low_group : (v : ℕ) → bit_and (v % 256) 0x7f ≡ v % 128
low_group v = rw (bit_and_low (v % 256) (omega arith)) (omega arith)

inner_byte : (v : ℕ) → bit_or (bit_and (v % 256) 0x7f) 0x80 ≡ v % 128 + 128
inner_byte v = rw low_group (bit_or_top _ (omega arith))

-- Seven bits further on.
pub next_group : (index : ℕ) → 2 ^ ((index + 1) * 7) ≡ 128 * 2 ^ (index * 7)
next_group index =
    let seven : (index + 1) * 7 ≡ index * 7 + 7 = omega arith in
    rw seven (simp towards_suc (omega arith))

-- One round of the loop, on the last byte and on any other.
last_round :
    (v index acc : ℕ) (rest : List ℕ)
    → index < 10
    → v < 128
    → acc < 2 ^ (index * 7)
    → acc + v * 2 ^ (index * 7) < 2 ^ 64
    → (index ≡ 9 → v < 2)
    → (0 < index → 0 < v)
    → decode_loop (v ∷ rest) index acc ≡ some (acc + v * 2 ^ (index * 7), rest)
unfolding decode_loop
last_round v index acc rest hi hv ha hs h9 h0 =
    ground (arith, bit_and_low v, bit_and_top v, bit_or_apart (index * 7) acc v, h9, h0)

inner_round :
    (g index acc : ℕ) (rest : List ℕ)
    → index < 9
    → g < 128
    → acc < 2 ^ (index * 7)
    → acc + g * 2 ^ (index * 7) < 2 ^ 64
    → decode_loop ((g + 128) ∷ rest) index acc
      ≡ decode_loop rest (index + 1) (acc + g * 2 ^ (index * 7))
unfolding decode_loop
inner_round g index acc rest hi hg ha hs =
    ground (arith, bit_and_low (g + 128), bit_and_top (g + 128), bit_or_apart (index * 7) acc g)

split_value :
    (v index : ℕ)
    → v * 2 ^ (index * 7) ≡ v % 128 * 2 ^ (index * 7) + v / 128 * 2 ^ ((index + 1) * 7)
split_value v index = omega (
  arith,
  ap (λ (t : ℕ). t * 2 ^ (index * 7)) (div-add-mod v 128),
  ap (λ (t : ℕ). v / 128 * t) (next_group index),
)

-- A last group that is no first group is not zero, and the tenth has one bit.
abbrev Fits : ℕ → ℕ → ℕ → Type 0
Fits v index acc =
    (acc < 2 ^ (index * 7)) × (acc + v * 2 ^ (index * 7) < 2 ^ 64) × (0 < index → 0 < v)

last-Fits : (v index acc : ℕ) → Fits v index acc → index ≡ 9 → v < 2
last-Fits v index acc h i =
    let at_63 : 2 ^ (index * 7) ≡ 9223372036854775808 = rw i refl in
    omega (arith, ap (λ (t : ℕ). v * t) at_63)

rest-Fits :
    (v index acc : ℕ)
    → 127 < v
    → Fits v index acc
    → Fits (v / 128) (index + 1) (acc + v % 128 * 2 ^ (index * 7))
rest-Fits v index acc m h =
    let next : 2 ^ ((index + 1) * 7) ≡ 128 * 2 ^ (index * 7) = next_group index in
    (grind arith, omega (arith, split_value v index), λ pos. omega arith)

pub encode_last : (v : ℕ) (w : Acc ◌<◌ v) → v < 128 → encode_loop v w ≡ v ∷ []
unfolding encode_loop
encode_last v (Acc.intro _ smaller) h =
    rw (dif_neg (dec_lt 127 v) (λ (m : 127 < v). omega arith)) (ground arith)

pub encode_more :
    (v : ℕ) (smaller : (u : ℕ) → u < v → Acc ◌<◌ u) (more : 127 < v)
    → encode_loop v (Acc.intro v smaller)
      ≡ (v % 128 + 128) ∷ encode_loop (v / 128) (smaller (v / 128) (shifts_down v more))
unfolding encode_loop
encode_more v smaller more = rw (dif_pos (dec_lt 127 v) le_prop more, inner_byte v)

loop-encode :
    (k v index acc : ℕ) (w : Acc ◌<◌ v) (rest : List ℕ)
    → index + k ≡ 9
    → v < 128 ^ suc k
    → Fits v index acc
    → decode_loop (encode_loop v w ++ rest) index acc ≡ some (acc + v * 2 ^ (index * 7), rest)
loop-encode zero v index acc w rest e b h =
    rw (encode_last v w b)
      (last_round v index acc rest (omega arith) b h.0 h.1 (last-Fits v index acc h) h.2)
loop-encode (suc k) v index acc (Acc.intro _ smaller) rest e b h = elim (dec_lt 127 v) [
  | yes more ↦ rw (encode_more v smaller more) (
      inner_round (v % 128) index acc
        (encode_loop (v / 128) (smaller (v / 128) (shifts_down v more)) ++ rest) (omega arith)
        (omega arith) h.0 (omega (arith, split_value v index, h.1))
      ∙ loop-encode k (v / 128) (index + 1) (acc + v % 128 * 2 ^ (index * 7)) _ rest (omega arith)
          (omega arith) (rest-Fits v index acc more h)
      ∙ ap (λ (n : ℕ). some (n, rest)) (omega (arith, split_value v index)))
  | no last ↦
      let small : v < 128 = omega arith in
      rw (encode_last v (Acc.intro v smaller) small)
        (last_round v index acc rest (omega arith) small h.0 h.1 (last-Fits v index acc h) h.2)
]

-- A varint that was written is read back, and what follows it is left.
pub decode_varint-encode_varint :
    (v : ℕ) (rest : List ℕ) → v < 2 ^ 64 → decode_varint (encode_varint v ++ rest) ≡ some (v, rest)
unfolding decode_varint encode_varint
decode_varint-encode_varint v rest h = ground (arith, loop-encode 9 v 0 0 (falls v) rest)
