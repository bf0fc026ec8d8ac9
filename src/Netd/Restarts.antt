-- ===== src/Netd/Restarts.antt =====
-- A daemon that restarts on the journal file of linux/common/apps/candy-netd/src/journal.rs.
pub mod Tests
use candy_runtime.Prelude.{
  ℕ, ◌+◌, ◌≤◌, ◌≡◌, refl, ap, ◌∙◌, false, List, Option, none, some, Result, ok, err, arith, length,
  ◌==◌, true, ltb,
}
use mathlib.Core.Path.{sym}
use candy_runtime.Proto.Request.{LeaseOwner}
use candy_runtime.Netd.Record.{TransactionRecord, NetworkError}
use candy_runtime.Netd.Interface.{
  ⊤, Call, NetworkBackend, NetworkJournal, NetworkTransaction, new_transaction,
}
use candy_runtime.Netd.Transaction.Controller.{ControllerCall, perform}
use candy_runtime.Netd.Durable.Rules.{Durability, IsDurable}
use candy_runtime.Netd.Durable.Methods.{perform-IsDurable}
use candy_runtime.Netd.Journal.Encode.{encode_record}
use candy_runtime.Netd.Journal.Decode.{decode_record}
use candy_runtime.Netd.Journal.Fields.{header_len, checksum_len}
use candy_runtime.Netd.Journal.File.{
  Metadata, OpenedFile, FileSystem, validate_parent, check_opened, open_existing, write_file,
  remove_file, or_remove, store_bytes, clear_existing, load_file, store_file, clear_file,
  file_journal, load_opened, max_journal_len,
}
use candy_runtime.Netd.Journal.Parts.{Held, has_both, reloaded}
use candy_runtime.Netd.Journal.Stored.{first_check, first_step, stored}
use candy_runtime.Netd.Journal.RoundTrip.{
  FitsRecord, CanonicalRecord, decode_record-encode_record, sealed, header_written, length-append,
}
use candy_runtime.Netd.Journal.Restart.{content_bound}

-- A regular file of mode 0600 that belongs to the user `uid`.
abbrev pub private_file : ℕ → List ℕ → OpenedFile
private_file uid bytes = record {
  metadata = some (record {
    is_symlink = false;
    is_dir = false;
    is_file = true;
    mode = 33152;
    uid = uid;
    len = length bytes;
  });
  contents = some bytes;
}

-- What the operating system promises: a file that was written, renamed to the path and synced is
-- found there with its bytes, one that was removed is not found, and neither changes the directory's
-- kind, mode and owner or the user of the daemon.
pub record IsFileSystem (F : Type 0) ⦃files : FileSystem F⦄ : Type 0 where
  pub parent_after_write :
      (bytes : List ℕ) (f : F)
      → (write_file bytes f).0 ≡ ok tt
      → validate_parent (write_file bytes f).1 ≡ validate_parent f
  pub open_after_write :
      (bytes : List ℕ) (f : F)
      → (write_file bytes f).0 ≡ ok tt
      → files.open_path (write_file bytes f).1
        ≡ ok (some (private_file (files.effective_uid (write_file bytes f).1) bytes))
  pub parent_after_remove :
      (f : F) → (remove_file f).0 ≡ ok tt → validate_parent (remove_file f).1 ≡ validate_parent f
  pub open_after_remove :
      (f : F) → (remove_file f).0 ≡ ok tt → files.open_path (remove_file f).1 ≡ ok none

unopened : (uid : ℕ) (o : Option OpenedFile) → check_opened uid o ≡ ok none → o ≡ none
unopened uid none h = refl
unopened uid (some file) h = ground arith

same_user :
    (uid : ℕ) (bytes : List ℕ)
    → check_opened uid (some (private_file uid bytes)) ≡ ok (some (private_file uid bytes))
same_user uid bytes = ground arith

-- The record that a restarted daemon finds, where there is one.
abbrev pub restored : Option TransactionRecord → Option TransactionRecord
restored none = none
restored (some r) = some (reloaded r)

module _ {F : Type 0} ⦃files : FileSystem F⦄ where
  -- A private file of the daemon's user with these bytes is at the path.
  abbrev pub Has : F → List ℕ → Type 0
  Has f bytes = files.open_path f ≡ ok (some (private_file (files.effective_uid f) bytes))

  -- The file is in step with the record in memory: it holds the encoding of the record, and there is
  -- no file without a record.
  abbrev pub InStep : (List ℕ → List ℕ) → F → Option TransactionRecord → Type 0
  InStep digest f none = (validate_parent f ≡ ok tt) × (files.open_path f ≡ ok none)
  InStep digest f (some r) =
      (validate_parent f ≡ ok tt)
      × ((bytes : List ℕ) × (encode_record digest r ≡ ok bytes) × Has f bytes)

  or_remove-ok :
      (m : Result NetworkError ⊤ × F)
      → (or_remove m).0 ≡ ok tt
      → (m.0 ≡ ok tt) × ((or_remove m).1 ≡ m.1)
  or_remove-ok (ok done, f) h = (refl, refl)
  or_remove-ok (err e, f) h = cc

  store_bytes-ok :
      (m : Result NetworkError (List ℕ)) (f : F)
      → (store_bytes m f).0 ≡ ok tt
      → (bytes : List ℕ) × (m ≡ ok bytes)
        × ((write_file bytes f).0 ≡ ok tt)
        × ((store_bytes m f).1 ≡ (write_file bytes f).1)
  store_bytes-ok (ok bytes) f h =
      let (done, same_files) = or_remove-ok (write_file bytes f) h in
      (bytes, refl, done, same_files)
  store_bytes-ok (err e) f h = cc

  no_file : (f : F) → open_existing f ≡ ok none → files.open_path f ≡ ok none
  unfolding open_existing
  no_file f h =
      let (o, opened, checked) = first_step (files.open_path f) _ h in
      opened ∙ ap ok (unopened (files.effective_uid f) o checked)

  clear_existing-InStep :
      IsFileSystem F
      → (digest : List ℕ → List ℕ) (m : Result NetworkError (Option OpenedFile)) (f : F)
      → (clear_existing m f).0 ≡ ok tt
      → (m ≡ ok none → InStep digest f none)
      → ((o : _) → m ≡ ok o → validate_parent f ≡ ok tt)
      → InStep digest (clear_existing m f).1 none
  clear_existing-InStep contract digest (ok none) f h k v = k refl
  clear_existing-InStep contract digest (ok (some file)) f h k v =
      (contract.parent_after_remove f h ∙ v _ refl, contract.open_after_remove f h)
  clear_existing-InStep contract digest (err e) f h k v = cc

  unfoldable file_durability :
      IsFileSystem F → (digest : List ℕ → List ℕ) → Durability {J = F} (file_journal digest)
  unfolding store_file clear_file
  file_durability contract digest = record {
    holds = InStep digest;
    holds-store = λ r f h.
        let (bytes, written, done, same_files) = store_bytes-ok _ f h in
        let (parent, e1) = first_check (validate_parent f) _ written in
        let (old, opened, encoded) = first_step (open_existing f) _ e1 in
        rw same_files (
          contract.parent_after_write bytes f done ∙ parent,
          (bytes, encoded, contract.open_after_write bytes f done),
        );
    holds-clear = λ f h.
        clear_existing-InStep contract digest _ f h
          (λ e.
            let (parent, opened) = first_check (validate_parent f) _ e in
            (parent, no_file f opened))
          (λ o e. (first_check (validate_parent f) _ e).0);
  }

  module _ (contract : IsFileSystem F) (digest : List ℕ → List ℕ)
      (length-digest : (bytes : List ℕ) → length (digest bytes) ≡ checksum_len) where
    load_private :
        (uid : ℕ) (r : TransactionRecord) (bytes : List ℕ)
        → FitsRecord r
        → CanonicalRecord r
        → has_both r.failed_prefixes r.recovery_candidate ≡ false
        → encode_record digest r ≡ ok bytes
        → load_opened digest (some (private_file uid bytes)) ≡ ok (some (reloaded r))
    unfolding load_opened
    load_private uid r bytes fits canonical b e =
        let (content, encoded, split) = sealed digest length-digest r bytes e in
        let s = stored r content encoded in
        let total : length bytes ≡ length content + 32 =
          ap length split
          ∙ length-append content (digest content)
          ∙ omega (arith, length-digest content) in
        let few = content_bound r content fits.octets s in
        let enough = header_written r content s in
        let short : ltb (length bytes) (header_len + checksum_len) ≡ false = ground arith in
        let long : ltb max_journal_len (length bytes) ≡ false = ground arith in
        let decoded = decode_record-encode_record digest length-digest r bytes fits canonical b e in
        rw (short, long, decoded) refl

    -- The record that a load finds.
    loaded :
        (f : F) (o : Option TransactionRecord)
        → InStep digest f o
        → Held FitsRecord o
        → Held CanonicalRecord o
        → Held (λ r. has_both r.failed_prefixes r.recovery_candidate ≡ false) o
        → load_file digest f ≡ ok (restored o)
    unfolding load_file open_existing
    loaded f none (parent, opened) fits canonical b = rw (parent, opened) refl
    loaded f (some r) (parent, (bytes, e, opened)) fits canonical b =
        rw (parent, opened, same_user (files.effective_uid f) bytes)
          (load_private (files.effective_uid f) r bytes fits canonical b e)

    -- A call of the service that reports success on a daemon whose journal is the file, in step with the
    -- record in memory before it (it holds the record's encoding, or is absent without a record), and whatever errors the backend answered on the way: a daemon that
    -- restarts on the file, over any backend, finds the record that the call left in memory, or none
    -- where it left none. Every field comes back, but that the drain deadline is kept only beside a
    -- candidate, and that the owner of a candidate comes back only where it is not the owner of the
    -- record. The record that is left holds what its types can hold, only steps that exist, no prefix
    -- of a declaration with host bits set, and not a candidate and failed prefixes at once; the
    -- operating system keeps its contract for files, and the digest has 32 bytes.
    pub perform-restarts :
        {B : Type 0} ⦃backend : NetworkBackend B⦄ (call : ControllerCall) (owner : LeaseOwner)
        (s : NetworkTransaction B F) (b : B)
        → InStep digest s.journal s.retained
        → (perform ⦃journal = file_journal digest⦄ call owner s).0 ≡ ok tt
        → Held FitsRecord (perform ⦃journal = file_journal digest⦄ call owner s).1.retained
        → Held CanonicalRecord (perform ⦃journal = file_journal digest⦄ call owner s).1.retained
        → Held
            (λ r. has_both r.failed_prefixes r.recovery_candidate ≡ false)
            (perform ⦃journal = file_journal digest⦄ call owner s).1.retained
        → new_transaction ⦃journal = file_journal digest⦄ b
            (perform ⦃journal = file_journal digest⦄ call owner s).1.journal
          ≡ ok (record (perform ⦃journal = file_journal digest⦄ call owner s).1 {
            backend = b;
            retained = restored (perform ⦃journal = file_journal digest⦄ call owner s).1.retained;
          })
    unfolding new_transaction file_durability
    perform-restarts call owner s b p h fits canonical once =
        let q = (perform ⦃journal = file_journal digest⦄ call owner s).1 in
        let in_step =
          perform-IsDurable ⦃journal = file_journal digest⦄ (file_durability contract digest) call
            owner s p h in
        rw (loaded q.journal q.retained in_step fits canonical once) refl
