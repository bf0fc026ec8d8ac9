-- ===== src/Proto/Prefix.antt =====
-- `Ipv4Prefix` of linux/common/crates/candy-netd-proto/src/lib.rs. A byte array is the list of its
-- bytes, a u32 is a number with its wrap-around written out.
use candy_runtime.Prelude.{
  ℕ, ◌+◌, ◌-◌, ◌*◌, ◌^◌, ◌%◌, Bool, true, false, not, ◌&&◌, ◌||◌, List, [], ◌∷◌, bit_and,
  ℕ_discrete, ltb, ◌==◌, same, Result, ok, err, if◌then◌else◌,
}
use candy_runtime.Proto.Error.{NetdProtocolError, invalid_declaration}
use mathlib.Core.List.{foldl}

pub record Ipv4Prefix : Type 0 where
  pub network : List ℕ
  pub prefix_len : ℕ

unfoldable pub Bytes-discrete : Discrete (List ℕ)
Bytes-discrete = hlevel ℕ_discrete

unfoldable pub Ipv4Prefix-discrete : Discrete Ipv4Prefix
Ipv4Prefix-discrete = hlevel ℕ_discrete

abbrev pub u32_max : ℕ
u32_max = 2 ^ 32 - 1

-- `u32::from_be_bytes`
unfoldable pub from_be_bytes : List ℕ → ℕ
from_be_bytes = foldl (λ acc byte. acc * 256 + byte) 0

-- A left shift of a u32 drops what leaves its 32 bits. The callers hold lengths up to 32.
unfoldable pub prefix_mask : ℕ → ℕ
prefix_mask prefix_len =
    if prefix_len == 0
    then 0
    else if prefix_len == 32
    then u32_max
    else u32_max * 2 ^ (32 - prefix_len) % 2 ^ 32

-- `Ipv4Prefix::new`; `!mask` is the complement in 32 bits.
unfoldable pub new_prefix : List ℕ → ℕ → Result NetdProtocolError Ipv4Prefix
unfolding from_be_bytes prefix_mask
new_prefix network prefix_len =
    if ltb 32 prefix_len
    then err invalid_declaration
    else if not (bit_and (from_be_bytes network) (u32_max - prefix_mask prefix_len) == 0)
    then err invalid_declaration
    else ok (record { network = network; prefix_len = prefix_len })

unfoldable pub contains : Ipv4Prefix → List ℕ → Bool
unfolding from_be_bytes prefix_mask
contains prefix address =
    bit_and (from_be_bytes address) (prefix_mask prefix.prefix_len) == from_be_bytes prefix.network

unfoldable pub overlaps : Ipv4Prefix → Ipv4Prefix → Bool
unfolding contains
overlaps prefix other = contains prefix other.network || contains other prefix.network

-- `<` on byte arrays: lexicographic.
unfoldable pub bytes_lt : List ℕ → List ℕ → Bool
bytes_lt [] [] = false
bytes_lt [] (y ∷ ys) = true
bytes_lt (x ∷ xs) [] = false
bytes_lt (x ∷ xs) (y ∷ ys) = ltb x y || ((x == y) && bytes_lt xs ys)

-- `Ord for Ipv4Prefix`: the pair of network and length, compared lexicographically.
unfoldable pub prefix_lt : Ipv4Prefix → Ipv4Prefix → Bool
unfolding bytes_lt
prefix_lt p q =
    bytes_lt p.network q.network
    || (same Bytes-discrete p.network q.network && ltb p.prefix_len q.prefix_len)

-- `Vec::sort` on prefixes, as the stable insertion sort that it is equal to.
unfoldable pub insert_prefix : Ipv4Prefix → List Ipv4Prefix → List Ipv4Prefix
unfolding prefix_lt
insert_prefix p [] = p ∷ []
insert_prefix p (q ∷ qs) = if prefix_lt q p then q ∷ insert_prefix p qs else p ∷ q ∷ qs

unfoldable pub sort_prefixes : List Ipv4Prefix → List Ipv4Prefix
unfolding insert_prefix
sort_prefixes [] = []
sort_prefixes (p ∷ ps) = insert_prefix p (sort_prefixes ps)

-- `Vec::dedup`: of each run of equal neighbours one is kept.
unfoldable pub dedup : List Ipv4Prefix → List Ipv4Prefix
dedup [] = []
dedup (p ∷ []) = p ∷ []
dedup (p ∷ q ∷ r) =
    let rest = dedup (q ∷ r) in if same Ipv4Prefix-discrete p q then rest else p ∷ rest

abbrev pub mem_prefix : List Ipv4Prefix → Ipv4Prefix → Bool
mem_prefix [] p = false
mem_prefix (q ∷ qs) p = same Ipv4Prefix-discrete q p || mem_prefix qs p
