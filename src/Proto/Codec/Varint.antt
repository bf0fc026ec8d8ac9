-- ===== src/Proto/Codec/Varint.antt =====
-- `encode_varint` and `decode_varint` of linux/common/crates/candy-netd-proto/src/lib.rs: base 128
-- with the low group first, at most ten bytes, and no needless last group.
pub mod RoundTrip
pub mod Canonical
use candy_runtime.Prelude.{
  ℕ, zero, suc, ◌+◌, ◌*◌, ◌/◌, ◌%◌, ◌^◌, ◌<◌, Bool, ◌&&◌, List, [], ◌∷◌, Option, none, some, arith,
  bit_and, bit_or, ltb, leb, ◌==◌, if◌then◌else◌,
}
use candy_runtime.Prelude.Loops.{falls}
use mathlib.Core.Logic.{dite}
use mathlib.Core.WellFounded.{Acc}
use native.Mathlib.Decide.{dec_lt}

pub shifts_down : (value : ℕ) → 127 < value → value / 128 < value
shifts_down value h = omega arith

-- `while value >= 0x80`; a byte that is pushed stands before those that the rest of the loop pushes.
unfoldable pub encode_loop : (value : ℕ) → Acc ◌<◌ value → List ℕ
encode_loop value (Acc.intro _ smaller) =
    dite (dec_lt 127 value)
      (λ more.
        bit_or (bit_and (value % 256) 0x7f) 0x80
        ∷ encode_loop (value / 128) (smaller _ (shifts_down value more)))
      (λ last. value % 256 ∷ [])

-- The bytes that `varint(value, out)` appends to `out`.
unfoldable pub encode_varint : ℕ → List ℕ
unfolding encode_loop
encode_varint value = encode_loop value (falls value)

-- The loop of `decode_varint` at byte `index`; the bytes left over stand for the count of those used.
unfoldable pub decode_loop : List ℕ → ℕ → ℕ → Option (ℕ × List ℕ)
decode_loop [] index value = none
decode_loop (byte ∷ rest) index value =
    let payload = bit_and byte 0x7f in
    let value' = bit_or value (payload * 2 ^ (index * 7) % 2 ^ 64) in
    let more = decode_loop rest (index + 1) value' in
    if leb 10 index
    then none
    else if (index == 9) && ltb 1 payload
    then none
    else if bit_and byte 0x80 == 0
    then if ltb 0 index && (payload == 0) then none else some (value', rest)
    else more

unfoldable pub decode_varint : List ℕ → Option (ℕ × List ℕ)
unfolding decode_loop
decode_varint input = decode_loop input 0 0
