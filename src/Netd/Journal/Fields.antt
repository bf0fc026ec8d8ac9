-- ===== src/Netd/Journal/Fields.antt =====
-- The constants and the fields of the journal file of
-- linux/common/apps/candy-netd/src/journal.rs, written and read.
use candy_runtime.Prelude.{
  ℕ, zero, suc, ◌-◌, ◌/◌, ◌%◌, ◌^◌, Bool, true, false, not, ◌||◌, List, [], ◌∷◌, ◌++◌, Option, none,
  some, Result, ok, err, refuse_if, bit_and, ltb, ◌==◌, same, if◌then◌else◌,
}
use candy_runtime.Prelude.Parsers.{Parser, pure, lift, ◌>>=◌, ◌>>◌, take_bytes}
use candy_runtime.Proto.Prefix.{Ipv4Prefix, Bytes-discrete, from_be_bytes, u32_max}
use candy_runtime.Netd.Record.{
  TransactionPhase, preparing, prepared, active, suspended, rolling_back, draining, SysctlKey,
  SysctlChange, ipv4_forward, all_rp_filter, candy_rp_filter, candy_disable_ipv6, NetworkError,
  journal,
}

abbrev pub Read : Type 0 → Type 0
Read A = Parser NetworkError A

-- The four values of the magic.
pub data JournalVersion : Type 0 where
  v1 v2 v3 v4 : JournalVersion

abbrev pub magic_of : JournalVersion → List ℕ
magic_of v1 = 67 ∷ 78 ∷ 68 ∷ 74 ∷ 78 ∷ 76 ∷ 48 ∷ 49 ∷ []
magic_of v2 = 67 ∷ 78 ∷ 68 ∷ 74 ∷ 78 ∷ 76 ∷ 48 ∷ 50 ∷ []
magic_of v3 = 67 ∷ 78 ∷ 68 ∷ 74 ∷ 78 ∷ 76 ∷ 48 ∷ 51 ∷ []
magic_of v4 = 67 ∷ 78 ∷ 68 ∷ 74 ∷ 78 ∷ 76 ∷ 48 ∷ 52 ∷ []

unfoldable pub version_of : List ℕ → Result NetworkError JournalVersion
version_of bytes =
    if same Bytes-discrete bytes (magic_of v1)
    then ok v1
    else if same Bytes-discrete bytes (magic_of v2)
    then ok v2
    else if same Bytes-discrete bytes (magic_of v3)
    then ok v3
    else if same Bytes-discrete bytes (magic_of v4)
    then ok v4
    else err journal

abbrev pub is_v3 : JournalVersion → Bool
is_v3 v3 = true
is_v3 _ = false

abbrev pub is_v4 : JournalVersion → Bool
is_v4 v4 = true
is_v4 _ = false

-- The lengths of the header and of the checksum.
abbrev pub header_len : ℕ
header_len = 16

abbrev pub checksum_len : ℕ
checksum_len = 32

abbrev pub max_failed_prefixes : ℕ
max_failed_prefixes = 1024

-- `to_be_bytes` of an integer of `n` bytes
unfoldable pub to_be_bytes : ℕ → ℕ → List ℕ
to_be_bytes zero value = []
to_be_bytes (suc n) value = to_be_bytes n (value / 256) ++ (value % 256 ∷ [])

unfoldable pub read_be : ℕ → Read ℕ
read_be n = do bytes ← take_bytes journal n; pure (from_be_bytes bytes)

abbrev pub phase_code : TransactionPhase → ℕ
phase_code preparing = 1
phase_code prepared = 2
phase_code active = 3
phase_code rolling_back = 4
phase_code suspended = 5
phase_code draining = 6

abbrev pub phase_of : ℕ → Result NetworkError TransactionPhase
phase_of code =
    if code == 1
    then ok preparing
    else if code == 2
    then ok prepared
    else if code == 3
    then ok active
    else if code == 4
    then ok rolling_back
    else if code == 5
    then ok suspended
    else if code == 6
    then ok draining
    else err journal

-- `completed_steps & !0x3f != 0`, on u16
unfoldable pub has_unknown_step : ℕ → Bool
has_unknown_step steps = not (bit_and steps (2 ^ 16 - 1 - 0x3f) == 0)

-- `key as u8` and `SysctlKey::try_from`
abbrev pub key_code : SysctlKey → ℕ
key_code ipv4_forward = 1
key_code all_rp_filter = 2
key_code candy_rp_filter = 3
key_code candy_disable_ipv6 = 4

abbrev pub key_of : ℕ → Result NetworkError SysctlKey
key_of code =
    if code == 1
    then ok ipv4_forward
    else if code == 2
    then ok all_rp_filter
    else if code == 3
    then ok candy_rp_filter
    else if code == 4
    then ok candy_disable_ipv6
    else err journal

-- `pair[0].key < pair[1].key`, in the order of the declaration of the keys
abbrev pub change_lt : SysctlChange → SysctlChange → Bool
change_lt c d = ltb (key_code c.key) (key_code d.key)

abbrev pub is_bad_change : SysctlChange → Bool
is_bad_change c = ltb 2 c.original || ltb 2 c.applied || (c.original == c.applied)

unfoldable pub change_bytes : SysctlChange → List ℕ
change_bytes c = key_code c.key ∷ c.original ∷ c.applied ∷ []

unfoldable pub read_change : Read SysctlChange
read_change = do
  code ← read_be 1
  key ← lift (key_of code)
  original ← read_be 1
  applied ← read_be 1
  lift (
      refuse_if (is_bad_change (record { key = key; original = original; applied = applied }))
        journal)
  pure (record { key = key; original = original; applied = applied })

unfoldable pub host_mask : ℕ → ℕ
host_mask prefix_len = if prefix_len == 0 then u32_max else 2 ^ (32 - prefix_len) - 1

unfoldable pub canonical_prefix : Ipv4Prefix → Bool
canonical_prefix p =
    if ltb 32 p.prefix_len
    then false
    else bit_and (from_be_bytes p.network) (host_mask p.prefix_len) == 0

unfoldable pub prefix_bytes : Ipv4Prefix → List ℕ
prefix_bytes p = p.network ++ (p.prefix_len ∷ [])

unfoldable pub read_failed_prefix : Read Ipv4Prefix
read_failed_prefix = do
  network ← take_bytes journal 4
  prefix_len ← read_be 1
  lift (
      refuse_if (not (canonical_prefix (record { network = network; prefix_len = prefix_len })))
        journal)
  pure (record { network = network; prefix_len = prefix_len })

-- `last().is_some_and(|previous| previous >= value)`, negated
abbrev pub follows : {A : Type 0} → (A → A → Bool) → Option A → A → Bool
follows lt none value = true
follows lt (some previous) value = lt previous value

-- `for chunk in chunks { … values.push(value) }`, where each value stands above the last one.
unfoldable pub read_rising : {A : Type 0} → (A → A → Bool) → Read A → Option A → ℕ → Read (List A)
read_rising lt item last zero = pure []
read_rising lt item last (suc n) = do
  value ← item
  lift (refuse_if (not (follows lt last value)) journal)
  values ← read_rising lt item (some value) n
  pure (value ∷ values)
