-- ===== src/Netd/Journal/Accepted.antt =====
-- What holds of every record that is read from a journal file.
use candy_runtime.Prelude.{
  ℕ, zero, suc, ◌-◌, ◌≡◌, refl, Bool, true, false, not, ◌||◌, List, [], ◌∷◌, Option, none, some,
  Result, ok, err, refuse_if, ◌==◌, same, if◌then◌else◌, arith, length, all_pairs, any, take, drop,
}
use candy_runtime.Prelude.Parsers.{pure, lift}
use candy_runtime.Prelude.Parsers.Ensures.{
  Ensures, Ensures-bind, Ensures-after, Ensures-check, Ensures-pure, Ensures-err, Ensures-if,
}
use candy_runtime.Proto.Prefix.{prefix_lt}
use candy_runtime.Proto.Declaration.{PrepareDeclaration}
use candy_runtime.Proto.Request.{LeaseOwner, LeaseOwner-discrete, NetdRequest}
use candy_runtime.Netd.Record.{TransactionPhase, TransactionRecord, NetworkError, journal}
use candy_runtime.Netd.Transaction.Recover.{is_own_candidate, is_policy_update}
use candy_runtime.Netd.Journal.Fields.{
  Read, JournalVersion, change_lt, is_bad_change, read_change, canonical_prefix, read_failed_prefix,
  read_rising, has_unknown_step, is_v4, checksum_len,
}
use candy_runtime.Netd.Journal.Encode.{
  refuses_prefixes, refuses_sysctls, holds_candidate, is_foreign, check_record,
}
use candy_runtime.Netd.Journal.Decode.{
  Recovery, other_owner, read_candidate, read_recovery, read_failed, candidate_of,
  candidate_owner_of, read_sysctls, read_record, whole, decode_content, decode_record,
}
use candy_runtime.Netd.Journal.Reads.{rises, rises-all_pairs}

Ensures-change : Ensures read_change (λ c. is_bad_change c ≡ false)
unfolding read_change
Ensures-change = Ensures-after _ λ code. Ensures-after _ λ key.
    Ensures-after _
      λ original. Ensures-after _ λ applied. Ensures-check _ λ passed. Ensures-pure _ (ground arith)

Ensures-failed_prefix : Ensures read_failed_prefix (λ p. not (canonical_prefix p) ≡ false)
unfolding read_failed_prefix
Ensures-failed_prefix =
    Ensures-after _ λ network.
      Ensures-after _ λ prefix_len. Ensures-check _ λ passed. Ensures-pure _ (ground arith)

module _ {A : Type 0} (lt : A → A → Bool) (bad : A → Bool) {item : Read A}
    (good : Ensures item (λ a. bad a ≡ false)) where
  abbrev Risen : Option A → ℕ → List A → Type 0
  Risen last n xs = (rises lt last xs ≡ true) × (length xs ≡ n) × (any bad xs ≡ false)

  Ensures-Risen : (n : ℕ) (last : Option A) → Ensures (read_rising lt item last n) (Risen last n)
  unfolding read_rising rises
  Ensures-Risen zero last = Ensures-pure [] (refl, refl, refl)
  Ensures-Risen (suc n) last = Ensures-bind good λ x fine. Ensures-check _ λ above.
      Ensures-bind (Ensures-Risen n (some x)) λ xs risen. Ensures-pure (x ∷ xs) (ground arith)

  risen :
      (n : ℕ)
      → Ensures
          (read_rising lt item none n)
          (λ xs. (all_pairs lt xs ≡ true) × (length xs ≡ n) × (any bad xs ≡ false))
  risen n = record {
    run = λ input xs rest e.
        let (r, l, b) = (Ensures-Risen n none).run input xs rest e in
        (rises-all_pairs lt xs r, l, b);
  }

Ensures-sysctls : Ensures read_sysctls (λ cs. refuses_sysctls cs ≡ false)
unfolding read_sysctls
Ensures-sysctls = Ensures-after _ λ count. Ensures-check _ λ few.
    Ensures-bind (risen change_lt is_bad_change Ensures-change count)
      λ cs h. Ensures-pure cs (ground arith)

Ensures-failed : (v : JournalVersion) → Ensures (read_failed v) (λ ps. refuses_prefixes ps ≡ false)
unfolding read_failed
Ensures-failed v =
    Ensures-if (is_v4 v)
      (Ensures-after _ λ count. Ensures-check _ λ few.
        Ensures-bind (risen prefix_lt (λ p. not (canonical_prefix p)) Ensures-failed_prefix count)
          λ ps h. Ensures-pure ps (ground arith))
      (Ensures-pure [] refl)

-- A candidate that was read, for the record's owner and phase.
abbrev Taken : LeaseOwner → TransactionPhase → Recovery → Type 0
Taken owner phase none = Unit {0}
Taken owner phase (some (d, none)) = holds_candidate phase ≡ true
Taken owner phase (some (d, some o)) =
    (holds_candidate phase ≡ true)
    × (is_foreign owner o ≡ false)
    × (same LeaseOwner-discrete o owner ≡ false)

Taken-by :
    (owner o : LeaseOwner) (phase : TransactionPhase) (d : PrepareDeclaration)
    → is_foreign owner o ≡ false
    → holds_candidate phase ≡ true
    → Taken owner phase (some (d, other_owner owner o))
Taken-by owner o phase d own held = by_test (same LeaseOwner-discrete o owner) refl
  where
    by_test :
        (b : Bool)
        → same LeaseOwner-discrete o owner ≡ b
        → Taken owner phase (some (d, if b then none else some o))
    by_test true e = held
    by_test false e = (held, own, e)

Ensures-candidate :
    (phase : TransactionPhase) (owner : LeaseOwner) (len : ℕ)
    → Ensures (read_candidate phase owner len) (Taken owner phase)
unfolding read_candidate
Ensures-candidate phase owner len = Ensures-after _ λ (recovery : NetdRequest).
    Ensures-check
      (refuse_if (is_foreign owner recovery.owner || not (holds_candidate phase)) journal)
      λ passed. Ensures-after _ λ candidate.
        Ensures-pure _ (Taken-by owner recovery.owner phase candidate (ground arith) (ground arith))

Ensures-Taken :
    (v : JournalVersion) (phase : TransactionPhase) (owner : LeaseOwner)
    → Ensures (read_recovery v phase owner) (Taken owner phase)
unfolding read_recovery
Ensures-Taken v phase owner =
    Ensures-if _ (Ensures-pure none tt)
      (Ensures-after _ λ len. Ensures-bind (by_length len) λ recovery h. Ensures-pure recovery h)
  where
    by_length :
        (len : ℕ)
        → Ensures
            (if len == 0
              then if is_v4 v then pure none else lift (err journal)
              else read_candidate phase owner len)
            (Taken owner phase)
    by_length len =
        Ensures-if _ (Ensures-if _ (Ensures-pure none tt) (Ensures-err journal))
          (Ensures-candidate phase owner len)

-- The parts of a record that are read beside each other.
abbrev Sound : TransactionRecord → Type 0
Sound r =
    (check_record r ≡ ok tt)
    × (has_unknown_step r.completed_steps ≡ false)
    × (is_own_candidate r.recovery_candidate_owner r.owner ≡ false)

sound :
    (r : TransactionRecord) (recovery : Recovery)
    → r.recovery_candidate ≡ candidate_of recovery
    → r.recovery_candidate_owner ≡ candidate_owner_of recovery
    → refuses_prefixes r.failed_prefixes ≡ false
    → refuses_sysctls r.sysctls ≡ false
    → has_unknown_step r.completed_steps ≡ false
    → Taken r.owner r.phase recovery
    → Sound r
unfolding check_record
sound r none c o prefixes sysctls known taken =
    (rw (prefixes, sysctls, c, o) refl, known, rw o refl)
sound r (some (d, none)) c o prefixes sysctls known taken =
    (rw (prefixes, sysctls, c, o, taken) refl, known, rw o refl)
sound r (some (d, some w)) c o prefixes sysctls known taken =
    (rw (prefixes, sysctls, c, o, taken.0, taken.1) refl, known, rw o taken.2)

Ensures-Sound : Ensures read_record Sound
unfolding read_record
Ensures-Sound = Ensures-after _ λ magic. Ensures-after _ λ version. Ensures-after _ λ code.
    Ensures-after _ λ phase. Ensures-after _ λ steps. Ensures-check _ λ known.
      Ensures-bind Ensures-sysctls λ sysctls rising. Ensures-after _ λ deadline.
        Ensures-after _ λ request. Ensures-after _ λ declaration.
          Ensures-bind (Ensures-Taken version phase request.owner) λ recovery taken.
            Ensures-bind (Ensures-failed version) λ failed canonical.
              Ensures-pure _ (sound _ recovery refl refl canonical rising (ground arith) taken)

whole_record :
    (m : Result NetworkError (TransactionRecord × List ℕ)) (r : TransactionRecord)
    → whole m ≡ ok r
    → m ≡ ok (r, [])
whole_record (ok (a, [])) r h = cc
whole_record (ok (a, b ∷ rest)) r h = cc
whole_record (err e) r h = cc

module _ (digest : List ℕ → List ℕ) where
  content_accepted :
      (content checksum : List ℕ) (r : TransactionRecord)
      → decode_content digest content checksum ≡ ok r
      → read_record content ≡ ok (r, [])
  unfolding decode_content
  content_accepted content checksum r e = whole_record (read_record content) r (ground arith)

  accepted :
      (bytes : List ℕ) (r : TransactionRecord)
      → decode_record digest bytes ≡ ok r
      → (content : List ℕ) × (read_record content ≡ ok (r, []))
  unfolding decode_record
  accepted bytes r e =
      let content_len = length bytes - checksum_len in
      (
        take content_len bytes,
        content_accepted (take content_len bytes) (drop content_len bytes) r (ground arith),
      )

  -- A record that is read from any file passes every check of the encoder, so that it can be stored
  -- again unless its declarations cannot: failed prefixes and sysctls are few, canonical and strictly
  -- rising, a candidate stands only in the phases that may hold one, and its owner is the same
  -- process and not of an earlier generation. It has only steps that exist.
  pub decode_record-check_record :
      (bytes : List ℕ) (r : TransactionRecord)
      → decode_record digest bytes ≡ ok r
      → (check_record r ≡ ok tt) × (has_unknown_step r.completed_steps ≡ false)
  decode_record-check_record bytes r e =
      let (content, read) = accepted bytes r e in
      let (checks, known, foreign) = Ensures-Sound.run content r [] read in (checks, known)

  -- A record that is read from a file is never taken for an interrupted policy update, by which
  -- `recover_orphan` would keep the live tunnel: such a record names its own owner as the owner of
  -- its candidate, and the decoder never yields that.
  pub decode_record-is_policy_update :
      (bytes : List ℕ) (r : TransactionRecord)
      → decode_record digest bytes ≡ ok r
      → is_policy_update r ≡ false
  unfolding is_policy_update
  decode_record-is_policy_update bytes r e =
      let (content, read) = accepted bytes r e in
      let (checks, known, foreign) = Ensures-Sound.run content r [] read in ground arith
