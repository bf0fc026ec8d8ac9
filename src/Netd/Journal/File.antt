-- ===== src/Netd/Journal/File.antt =====
-- `FileNetworkJournal` of linux/common/apps/candy-netd/src/journal.rs, over the calls of the operating
-- system that it makes, with the path of the journal fixed; it has
-- a parent and a name in UTF-8. SHA-256 is a parameter.
use candy_runtime.Prelude.{
  ℕ, ◌+◌, ◌*◌, Bool, not, ◌||◌, List, Option, none, some, Result, ok, err, refuse_if, ltb, ◌==◌,
  bit_and,
}
use candy_runtime.Prelude.Results.{◌>>=◌, ◌>>◌}
use candy_runtime.Proto.Codec.Frame.{max_netd_frame_len}
use candy_runtime.Netd.Record.{TransactionRecord, NetworkError, journal}
use candy_runtime.Netd.Interface.{⊤, Call, NetworkJournal, continue}
use candy_runtime.Netd.Journal.Fields.{header_len, checksum_len}
use candy_runtime.Netd.Journal.Encode.{encode_record}
use candy_runtime.Netd.Journal.Decode.{decode_record}

-- What the metadata of a file say.
pub record Metadata : Type 0 where
  pub is_symlink : Bool
  pub is_dir : Bool
  pub is_file : Bool
  pub mode : ℕ
  pub uid : ℕ
  pub len : ℕ

-- An open file; none stands for an error of the call that asks for it.
pub record OpenedFile : Type 0 where
  pub metadata : Option Metadata
  pub contents : Option (List ℕ)

-- The calls of the operating system about the journal's path, its directory and its temporary file.
-- Their errors are mapped to `NetworkError`.
pub record FileSystem (F : Type 0) : Type 0 where
  pub parent_metadata : F → Option Metadata
  pub effective_uid : F → ℕ
  pub open_path : F → Result NetworkError (Option OpenedFile)
  pub create_temporary : Call F ⊤
  pub write_all : List ℕ → Call F ⊤
  pub sync_all : Call F ⊤
  pub rename : Call F ⊤
  pub remove_temporary : Call F ⊤
  pub remove_path : Call F ⊤
  pub sync_directory : Call F ⊤

abbrev pub max_journal_len : ℕ
max_journal_len =
    header_len
    + 3 * 3
    + 8
    + max_netd_frame_len
    + 4
    + max_netd_frame_len
    + 4
    + 2
    + 5 * 1024
    + checksum_len

-- `ok_or(NetworkError::Journal)`, `map_err(journal_error)`
abbrev pub or_error : {A : Type 0} → Option A → Result NetworkError A
or_error none = err journal
or_error (some a) = ok a

abbrev pub is_unsafe_parent : ℕ → Metadata → Bool
is_unsafe_parent uid m =
    m.is_symlink || not m.is_dir || not (bit_and m.mode 18 == 0) || not (m.uid == uid)

abbrev pub is_unsafe_file : ℕ → Metadata → Bool
is_unsafe_file uid m =
    not m.is_file || m.is_symlink || not (m.uid == uid) || not (bit_and m.mode 127 == 0)

abbrev pub check_opened : ℕ → Option OpenedFile → Result NetworkError (Option OpenedFile)
check_opened uid none = ok none
check_opened uid (some file) = do
  metadata ← or_error file.metadata
  refuse_if (is_unsafe_file uid metadata) journal
  ok (some file)

unfoldable pub load_opened :
    (List ℕ → List ℕ) → Option OpenedFile → Result NetworkError (Option TransactionRecord)
load_opened digest none = ok none
load_opened digest (some file) = do
  metadata ← or_error file.metadata
  refuse_if (ltb metadata.len (header_len + checksum_len) || ltb max_journal_len metadata.len)
      journal
  bytes ← or_error file.contents
  r ← decode_record digest bytes
  ok (some r)

module _ {F : Type 0} ⦃files : FileSystem F⦄ where
  unfoldable pub validate_parent : F → Result NetworkError ⊤
  validate_parent f = do
    metadata ← or_error (files.parent_metadata f)
    refuse_if (is_unsafe_parent (files.effective_uid f) metadata) journal

  unfoldable pub open_existing : F → Result NetworkError (Option OpenedFile)
  open_existing f = do file ← files.open_path f; check_opened (files.effective_uid f) file

  -- The closure of `store`.
  unfoldable pub write_file : List ℕ → Call F ⊤
  write_file bytes f = continue (files.create_temporary f) λ _ f.
      continue (files.write_all bytes f) λ _ f.
        continue (files.sync_all f) λ _ f. continue (files.rename f) λ _ f. files.sync_directory f

  -- `if result.is_err() { let _ = fs::remove_file(&temporary); }`
  abbrev pub or_remove : Result NetworkError ⊤ × F → Result NetworkError ⊤ × F
  or_remove (ok done, f) = (ok done, f)
  or_remove (err e, f) = (err e, (files.remove_temporary f).1)

  abbrev pub store_bytes : Result NetworkError (List ℕ) → Call F ⊤
  store_bytes (ok bytes) f = or_remove (write_file bytes f)
  store_bytes (err e) f = (err e, f)

  unfoldable pub remove_file : Call F ⊤
  remove_file f = continue (files.remove_path f) λ _ f. files.sync_directory f

  abbrev pub clear_existing : Result NetworkError (Option OpenedFile) → Call F ⊤
  clear_existing (err e) f = (err e, f)
  clear_existing (ok none) f = (ok tt, f)
  clear_existing (ok (some file)) f = remove_file f

  unfoldable pub clear_file : Call F ⊤
  unfolding validate_parent open_existing
  clear_file f = clear_existing (do validate_parent f; open_existing f) f

  module _ (digest : List ℕ → List ℕ) where
    unfoldable pub load_file : F → Result NetworkError (Option TransactionRecord)
    unfolding load_opened
    load_file f = do validate_parent f; file ← open_existing f; load_opened digest file

    unfoldable pub store_file : TransactionRecord → Call F ⊤
    unfolding validate_parent open_existing
    store_file r f =
        store_bytes (do validate_parent f; _ ← open_existing f; encode_record digest r) f

    abbrev pub file_journal : NetworkJournal F
    file_journal = record { load = load_file; store = store_file; clear = clear_file }
