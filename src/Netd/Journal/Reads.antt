-- ===== src/Netd/Journal/Reads.antt =====
-- The fields of the journal file are read back.
use candy_runtime.Prelude.{
  ℕ, zero, suc, ◌+◌, ◌*◌, ◌/◌, ◌%◌, ◌^◌, ◌<◌, ◌≡◌, refl, ap, ◌∙◌, Bool, true, false, ◌&&◌, List, [],
  ◌∷◌, ◌++◌, Option, none, some, ok, arith, length, All, all_pairs, ℕ_discrete,
}
use mathlib.Core.Path.{subst}
use mathlib.Core.List.{foldl-append}
use candy_runtime.Prelude.Bits.{none_above}
use candy_runtime.Prelude.Writers.{encode_each}
use candy_runtime.Prelude.Parsers.{pure}
use candy_runtime.Prelude.Parsers.Reads.{
  Reads, Reads-bind, Reads-step, Reads-last, Reads-pure, Reads-lift, Reads-check, Reads-fixed,
}
use candy_runtime.Proto.Prefix.{Ipv4Prefix, Bytes-discrete, from_be_bytes}
use candy_runtime.Netd.Record.{
  TransactionPhase, preparing, prepared, active, suspended, rolling_back, draining, SysctlKey,
  SysctlChange, ipv4_forward, all_rp_filter, candy_rp_filter, candy_disable_ipv6, NetworkError,
  journal,
}
use candy_runtime.Netd.Journal.Fields.{
  Read, JournalVersion, v1, v2, v3, v4, magic_of, version_of, to_be_bytes, read_be, phase_code,
  phase_of, has_unknown_step, key_code, key_of, is_bad_change, change_bytes, read_change,
  canonical_prefix, prefix_bytes, read_failed_prefix, follows, read_rising,
}

length-snoc : (xs : List ℕ) (x : ℕ) → length (xs ++ (x ∷ [])) ≡ suc (length xs)
length-snoc [] x = refl
length-snoc (y ∷ xs) x = ap suc (length-snoc xs x)

pub length-to_be_bytes : (n v : ℕ) → length (to_be_bytes n v) ≡ n
unfolding to_be_bytes
length-to_be_bytes zero v = refl
length-to_be_bytes (suc n) v =
    length-snoc (to_be_bytes n (v / 256)) (v % 256) ∙ ap suc (length-to_be_bytes n (v / 256))

-- A number of at most `n` bytes.
pub from_be_bytes-to_be_bytes : (n v : ℕ) → v < 256 ^ n → from_be_bytes (to_be_bytes n v) ≡ v
unfolding from_be_bytes to_be_bytes
from_be_bytes-to_be_bytes zero v h = omega arith
from_be_bytes-to_be_bytes (suc n) v h =
    let bound : v < 256 ^ n * 256 = grind arith in
    let head : from_be_bytes (to_be_bytes n (v / 256)) ≡ v / 256 =
      from_be_bytes-to_be_bytes n (v / 256) (omega arith) in
    foldl-append (λ acc byte. acc * 256 + byte) 0 (to_be_bytes n (v / 256)) (v % 256 ∷ [])
    ∙ omega (arith, head)

pub Reads-be : (n v : ℕ) → v < 256 ^ n → Reads (read_be n) (to_be_bytes n v) v
unfolding read_be
Reads-be n v h = Reads-last _ (Reads-fixed journal (to_be_bytes n v) (length-to_be_bytes n v)) (
    subst (λ u. Reads {E = NetworkError} (pure (from_be_bytes (to_be_bytes n v))) [] u)
      (from_be_bytes-to_be_bytes n v h) (Reads-pure _))

-- A single byte, taken as it is.
pub Reads-byte : (b : ℕ) → Reads (read_be 1) (b ∷ []) b
unfolding read_be from_be_bytes
Reads-byte b =
    let value : 0 * 256 + b ≡ b = omega arith in
    Reads-last _ (Reads-fixed journal (b ∷ []) refl) (
      subst (λ u. Reads {E = NetworkError} (pure (from_be_bytes (b ∷ []))) [] u) value
        (Reads-pure _))

pub version_of-magic_of : (v : JournalVersion) → version_of (magic_of v) ≡ ok v
unfolding version_of Bytes-discrete ℕ_discrete
version_of-magic_of v1 = refl
version_of-magic_of v2 = refl
version_of-magic_of v3 = refl
version_of-magic_of v4 = refl

pub phase_of-phase_code : (p : TransactionPhase) → phase_of (phase_code p) ≡ ok p
phase_of-phase_code preparing = refl
phase_of-phase_code prepared = refl
phase_of-phase_code active = refl
phase_of-phase_code suspended = refl
phase_of-phase_code rolling_back = refl
phase_of-phase_code draining = refl

key_of-key_code : (k : SysctlKey) → key_of (key_code k) ≡ ok k
key_of-key_code ipv4_forward = refl
key_of-key_code all_rp_filter = refl
key_of-key_code candy_rp_filter = refl
key_of-key_code candy_disable_ipv6 = refl

pub steps_known : (steps : ℕ) → steps < 64 → has_unknown_step steps ≡ false
unfolding has_unknown_step
steps_known steps h = ground (arith, none_above steps h)

-- A change or a prefix that its check lets pass.
pub Reads-change :
    (c : SysctlChange) → is_bad_change c ≡ false → Reads read_change (change_bytes c) c
unfolding read_change change_bytes
Reads-change c h = Reads-bind _ (Reads-byte (key_code c.key)) (
    Reads-step _ (Reads-lift c.key (key_of-key_code c.key)) (
      Reads-bind _ (Reads-byte c.original)
        (Reads-last _ (Reads-byte c.applied) (Reads-check _ (rw h refl) (Reads-pure c)))))

pub record IsFailed (p : Ipv4Prefix) : Type 0 where
  pub octets : length p.network ≡ 4
  pub canonical : canonical_prefix p ≡ true

pub Reads-failed_prefix :
    (p : Ipv4Prefix) → IsFailed p → Reads read_failed_prefix (prefix_bytes p) p
unfolding read_failed_prefix prefix_bytes
Reads-failed_prefix p h =
    Reads-bind _ (Reads-fixed journal p.network h.octets)
      (Reads-last _ (Reads-byte p.prefix_len) (Reads-check _ (rw h.canonical refl) (Reads-pure p)))

module _ {A : Type 0} (lt : A → A → Bool) where
  unfoldable pub rises : Option A → List A → Bool
  rises last [] = true
  rises last (x ∷ xs) = follows lt last x && rises (some x) xs

  all_pairs-rises : (x : A) (xs : List A) → all_pairs lt (x ∷ xs) ≡ true → rises (some x) xs ≡ true
  unfolding rises
  all_pairs-rises x [] h = refl
  all_pairs-rises x (y ∷ xs) h = ground (arith, all_pairs-rises y xs)

  rises_after-all_pairs :
      (x : A) (xs : List A) → rises (some x) xs ≡ true → all_pairs lt (x ∷ xs) ≡ true
  unfolding rises
  rises_after-all_pairs x [] h = refl
  rises_after-all_pairs x (y ∷ xs) h = ground (arith, rises_after-all_pairs y xs)

  pub rises-all_pairs : (xs : List A) → rises none xs ≡ true → all_pairs lt xs ≡ true
  unfolding rises
  rises-all_pairs [] h = refl
  rises-all_pairs (x ∷ xs) h = rises_after-all_pairs x xs h

  rising : (xs : List A) → all_pairs lt xs ≡ true → rises none xs ≡ true
  unfolding rises
  rising [] h = refl
  rising (x ∷ xs) h = all_pairs-rises x xs h

  module _ {item : Read A} {encode : A → List ℕ} {P : A → Type 0}
      (reads : (a : A) → P a → Reads item (encode a) a) where
    Reads-rises :
        (last : Option A) (xs : List A)
        → All P xs
        → rises last xs ≡ true
        → Reads (read_rising lt item last (length xs)) (encode_each encode xs) xs
    unfolding rises read_rising encode_each
    Reads-rises last [] p h = Reads-pure []
    Reads-rises last (x ∷ xs) p h =
        let above : follows lt last x ≡ true = ground arith in
        Reads-bind _ (reads x p.0) (
          Reads-check _ (rw above refl)
            (Reads-last _ (Reads-rises (some x) xs p.1 (ground arith)) (Reads-pure (x ∷ xs))))

    -- Values that rise strictly are read back in their order.
    pub Reads-rising :
        (xs : List A)
        → All P xs
        → all_pairs lt xs ≡ true
        → Reads (read_rising lt item none (length xs)) (encode_each encode xs) xs
    Reads-rising xs p h = Reads-rises none xs p (rising xs h)
