-- ===== src/Proto/Codec/Varint/Canonical.antt =====
-- A varint that is accepted is the one that would be written.
use candy_runtime.Prelude.{
  ℕ, ◌+◌, ◌-◌, ◌*◌, ◌/◌, ◌%◌, ◌^◌, ◌≤◌, ◌<◌, ◌≡◌, refl, ap, List, [], ◌∷◌, ◌++◌, none, some, arith,
  bit_and, bit_or, All, ◌⊎◌, inl, inr,
}
use candy_runtime.Prelude.Bits.{bit_and_low, bit_and_top, bit_or_apart}
use candy_runtime.Prelude.Loops.{falls}
use candy_runtime.Proto.Codec.Varint.{encode_loop, encode_varint, decode_loop, decode_varint}
use candy_runtime.Proto.Codec.Varint.RoundTrip.{next_group, encode_last, encode_more}
use native.Mathlib.Nat.{pow-le-pow_right, mul-le-mul_right}
use native.Mathlib.Decide.{dec_lt}
use mathlib.Core.Path.{subst, sym}
use mathlib.Core.WellFounded.{Acc}

shift_bound : (index : ℕ) → index < 9 → 2 ^ (index * 7) ≤ 2 ^ 56
shift_bound index h = pow-le-pow_right (omega arith) {j = 56} (omega arith)

group_bound : (g t acc : ℕ) → g < 128 → t ≤ 2 ^ 56 → acc < t → acc + g * t < 2 ^ 63
group_bound g t acc hg ht ha =
    let most : g * t ≤ 127 * t = mul-le-mul_right t (omega arith) in omega arith

-- What an accepting run says of its first byte: it is the last one, or the run goes on.
abbrev Last : ℕ → List ℕ → ℕ → ℕ → ℕ → List ℕ → Type 0
Last b bytes index acc v rest =
    (b < 128)
    × (v ≡ acc + b * 2 ^ (index * 7))
    × (rest ≡ bytes)
    × (0 < index → 0 < b)
    × (v < 2 ^ 64)

abbrev Inner : ℕ → List ℕ → ℕ → ℕ → ℕ → List ℕ → Type 0
Inner b bytes index acc v rest =
    (128 ≤ b)
    × (index < 9)
    × (decode_loop bytes (index + 1) (acc + (b - 128) * 2 ^ (index * 7)) ≡ some (v, rest))

decode_ten : (bytes : List ℕ) (acc : ℕ) → decode_loop bytes 10 acc ≡ none
unfolding decode_loop
decode_ten [] acc = refl
decode_ten (b ∷ bytes) acc = refl

first_round :
    (b : ℕ) (bytes : List ℕ) (index acc v : ℕ) (rest : List ℕ)
    → b < 256
    → index < 9
    → acc < 2 ^ (index * 7)
    → decode_loop (b ∷ bytes) index acc ≡ some (v, rest)
    → Last b bytes index acc v rest ⊎ Inner b bytes index acc v rest
unfolding decode_loop
first_round b bytes index acc v rest hb hi ha e = ground (
  arith,
  shift_bound index,
  group_bound (b % 128) (2 ^ (index * 7)) acc,
  bit_and_low b,
  bit_and_top b,
  bit_or_apart (index * 7) acc (b % 128),
)

tenth_round :
    (b : ℕ) (bytes : List ℕ) (acc v : ℕ) (rest : List ℕ)
    → b < 256
    → acc < 2 ^ 63
    → decode_loop (b ∷ bytes) 9 acc ≡ some (v, rest)
    → Last b bytes 9 acc v rest
unfolding decode_loop
tenth_round b bytes acc v rest hb ha e = ground (
  arith,
  bit_and_low b,
  bit_and_top b,
  bit_or_apart 63 acc (b % 128),
  decode_ten bytes (bit_or acc (bit_and b 0x7f * 2 ^ (9 * 7) % 2 ^ 64)),
)

unroll :
    (u : ℕ) (w : Acc ◌<◌ u)
    → 127 < u
    → (w' : Acc ◌<◌ (u / 128)) × (encode_loop u w ≡ (u % 128 + 128) ∷ encode_loop (u / 128) w')
unroll u (Acc.intro _ smaller) more = (_, encode_more u smaller more)

-- The bytes are those of some number `u`, whatever follows them.
abbrev Written : List ℕ → ℕ → ℕ → ℕ → List ℕ → Type 0
Written bytes index acc v rest =
    (u : ℕ) × ((w : Acc ◌<◌ u) → bytes ≡ encode_loop u w ++ rest)
    × (v ≡ acc + u * 2 ^ (index * 7))
    × (0 < index → 0 < u)
    × (v < 2 ^ 64)

regroup : (g u t t' : ℕ) → t' ≡ 128 * t → (g + u * 128) * t ≡ g * t + u * t'
regroup g u t t' h = rw h (grind arith)

-- Seven more bits may be in use behind another group.
grown :
    (g acc index : ℕ)
    → g < 128
    → acc < 2 ^ (index * 7)
    → acc + g * 2 ^ (index * 7) < 2 ^ ((index + 1) * 7)
grown g acc index hg ha =
    let most : g * 2 ^ (index * 7) ≤ 127 * 2 ^ (index * 7) = mul-le-mul_right _ (omega arith) in
    omega (arith, next_group index)

final-Written :
    (b : ℕ) (bytes : List ℕ) (index acc v : ℕ) (rest : List ℕ)
    → Last b bytes index acc v rest
    → Written (b ∷ bytes) index acc v rest
final-Written b bytes index acc v rest (small, e, r, pos, fits) =
    (b, (λ w. rw (encode_last b w small, r)), e, pos, fits)

inner-Written :
    (b : ℕ) (bytes : List ℕ) (index acc v : ℕ) (rest : List ℕ)
    → 128 ≤ b
    → b < 256
    → Written bytes (index + 1) (acc + (b - 128) * 2 ^ (index * 7)) v rest
    → Written (b ∷ bytes) index acc v rest
inner-Written b bytes index acc v rest hb small (u, f, e, pos, fits) =
    let whole : ℕ = b - 128 + u * 128 in
    let low : whole % 128 + 128 ≡ b = omega arith in
    let high : whole / 128 ≡ u = omega arith in
    let tail_bytes : (k : ℕ) → k ≡ u → (w : Acc ◌<◌ k) → bytes ≡ encode_loop k w ++ rest =
      λ k k_is_u. subst (λ k. (w : Acc ◌<◌ k) → bytes ≡ encode_loop k w ++ rest) (sym k_is_u) f in
    (
      whole,
      (λ w.
          let (w', step) = unroll whole w (omega (arith, pos)) in
          rw (step, low) (ap (λ t. b ∷ t) (tail_bytes (whole / 128) high w'))),
      omega (
        arith,
        e,
        regroup (b - 128) u (2 ^ (index * 7)) (2 ^ ((index + 1) * 7)) (next_group index),
      ),
      (λ i. omega (arith, pos)),
      fits,
    )

loop-Written :
    (bytes : List ℕ) (index acc v : ℕ) (rest : List ℕ)
    → All (λ b. b < 256) bytes
    → index < 10
    → acc < 2 ^ (index * 7)
    → decode_loop bytes index acc ≡ some (v, rest)
    → Written bytes index acc v rest
loop-Written [] index acc v rest hb hi ha e = unfold decode_loop in cc
loop-Written (b ∷ bytes) index acc v rest (hb, hs) hi ha e = elim (dec_lt index 9) [
  | yes h ↦ elim (first_round b bytes index acc v rest hb h ha e) [
    | inl last ↦ final-Written b bytes index acc v rest last
    | inr (big, more, e') ↦ inner-Written b bytes index acc v rest big hb (
        loop-Written bytes (index + 1) (acc + (b - 128) * 2 ^ (index * 7)) v rest hs (omega arith)
          (grown (b - 128) acc index (omega arith) ha) e')
  ]
  | no h ↦
      let nine : index ≡ 9 = omega arith in
      final-Written b bytes index acc v rest
        (rw nine (tenth_round b bytes acc v rest hb (rw nine at ha) (rw nine at e)))
]

-- A varint that is read is below 2 ^ 64, and the bytes it was read from are those that are written
-- for it: no number has two encodings.
pub decode_varint-canonical :
    (bytes : List ℕ) (v : ℕ) (rest : List ℕ)
    → All (λ b. b < 256) bytes
    → decode_varint bytes ≡ some (v, rest)
    → (bytes ≡ encode_varint v ++ rest) × (v < 2 ^ 64)
unfolding decode_varint encode_varint
decode_varint-canonical bytes v rest h e =
    let (u, f, value, pos, fits) = loop-Written bytes 0 0 v rest h (omega arith) (omega arith) e in
    let same_value : v ≡ u = omega arith in (rw same_value (f (falls u)), fits)
