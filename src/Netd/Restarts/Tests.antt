-- ===== src/Netd/Restarts/Tests.antt =====
-- A run of the daemon over a journal file in memory.
use candy_runtime.Prelude.{
  ℕ, ◌≡◌, refl, Bool, true, false, List, [], ◌++◌, Option, none, some, ok, arith, ℕ_discrete,
}
use candy_runtime.Proto.Prefix.{Bytes-discrete}
use candy_runtime.Proto.Tests.{agent, replacement}
use candy_runtime.Netd.Record.{TransactionRecord, active}
use candy_runtime.Netd.Interface.{NetworkTransaction, new_transaction, ◌>>◌, save}
use candy_runtime.Netd.Transaction.Lifecycle
use candy_runtime.Netd.Transaction.Controller.{ControllerCall, perform}
use candy_runtime.Netd.Journal.Encode.{
  check_record, encode_record, encode_content, recovery_request, record_bytes,
}
use candy_runtime.Netd.Journal.File.{
  FileSystem, OpenedFile, validate_parent, open_existing, write_file, remove_file, store_file,
  file_journal,
}
use candy_runtime.Netd.Journal.RoundTrip.{FitsRecord, CanonicalRecord}
use candy_runtime.Netd.Journal.Tests.{
  digest, length-digest, replaced, replaced_encodes, candidate, candidate_encodes, candidate_fits,
  file, successor-IsOwner, replacement-FitsDeclaration, replacement-CanonicalDeclaration,
}
use candy_runtime.Netd.Tests.{simple_backend}
use candy_runtime.Netd.Restarts.{private_file, IsFileSystem, restored, perform-restarts}

-- What is at the path, and what is in the temporary file.
abbrev Disk : Type 0
Disk = Option (List ℕ) × Option (List ℕ)

abbrev opened : Option (List ℕ) → Option OpenedFile
opened none = none
opened (some bytes) = some (private_file 0 bytes)

instance abbrev simple_files : FileSystem Disk
simple_files = record {
  parent_metadata = λ f. some (record {
    is_symlink = false;
    is_dir = true;
    is_file = false;
    mode = 16832;
    uid = 0;
    len = 4096;
  });
  effective_uid = λ f. 0;
  open_path = λ f. ok (opened f.0);
  create_temporary = λ f. (ok tt, (f.0, some []));
  write_all = λ bytes f. (ok tt, (f.0, some bytes));
  sync_all = λ f. (ok tt, f);
  rename = λ f. (ok tt, (f.1, none));
  remove_temporary = λ f. (ok tt, (f.0, none));
  remove_path = λ f. (ok tt, (none, f.1));
  sync_directory = λ f. (ok tt, f);
}

simple_files-IsFileSystem : IsFileSystem Disk
unfolding write_file remove_file validate_parent
simple_files-IsFileSystem = record {
  parent_after_write = λ bytes f h. refl;
  open_after_write = λ bytes f h. refl;
  parent_after_remove = λ f h. refl;
  open_after_remove = λ f h. refl;
}

-- The candidate after it was promoted.
abbrev promoted : TransactionRecord
promoted = record replaced {
  owner = record agent { generation = 8 };
  declaration = replacement;
  recovery_candidate = none;
  recovery_candidate_owner = none;
  phase = active;
  drain_deadline_mono_ms = 0;
}

abbrev promoted_file : List ℕ
promoted_file = let content = record_bytes promoted candidate none in content ++ digest content

promoted_encodes : encode_record digest promoted ≡ ok promoted_file
unfolding encode_record encode_content check_record recovery_request Bytes-discrete ℕ_discrete
promoted_encodes = rw (candidate_encodes, candidate_fits) refl

promoted-FitsRecord : FitsRecord promoted
promoted-FitsRecord = record {
  owner_typed = successor-IsOwner;
  declaration_fits = replacement-FitsDeclaration;
  candidate_fits = tt;
  candidate_owner_typed = tt;
  steps_bound = omega arith;
  deadline_bound = omega arith;
  octets = tt;
}

promoted-CanonicalRecord : CanonicalRecord promoted
promoted-CanonicalRecord = record { declaration = replacement-CanonicalDeclaration; candidate = tt }

abbrev before : NetworkTransaction Bool Disk
before = record { backend = true; journal = (some (file replaced), none); retained = some replaced }

abbrev after : NetworkTransaction Bool Disk
after = record { backend = true; journal = (some promoted_file, none); retained = some promoted }

promotes :
    perform ⦃journal = file_journal digest⦄ (ControllerCall.drain_old 9000) agent before
    ≡ (ok tt, after)
unfolding perform Lifecycle.drain_old ◌>>◌ save Bytes-discrete ℕ_discrete store_file write_file
    validate_parent open_existing
promotes = rw promoted_encodes refl

parent_fine : validate_parent before.journal ≡ ok tt
unfolding validate_parent
parent_fine = refl

perform-restarts_example :
    new_transaction ⦃journal = file_journal digest⦄ false
      (perform ⦃journal = file_journal digest⦄
        (ControllerCall.drain_old 9000)
        agent
        before).1.journal
    ≡ ok
        (record (perform ⦃journal = file_journal digest⦄
          (ControllerCall.drain_old 9000)
          agent
          before).1 {
            backend = false;
            retained =
                restored
                  (perform ⦃journal = file_journal digest⦄
                    (ControllerCall.drain_old 9000)
                    agent
                    before).1.retained;
          })
perform-restarts_example =
    perform-restarts simple_files-IsFileSystem digest length-digest (ControllerCall.drain_old 9000)
      agent before false (parent_fine, (file replaced, replaced_encodes, refl)) (rw promotes refl)
      (rw promotes promoted-FitsRecord) (rw promotes promoted-CanonicalRecord) (rw promotes refl)
