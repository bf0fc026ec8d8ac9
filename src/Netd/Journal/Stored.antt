-- ===== src/Netd/Journal/Stored.antt =====
-- What an encoder of the journal that succeeded has checked and written.
use candy_runtime.Prelude.{
  ℕ, ◌≡◌, refl, Bool, false, List, [], ◌∷◌, Option, none, some, Result, ok, err, arith, length, All,
  any,
}
use candy_runtime.Prelude.Results.{◌>>=◌, ◌>>◌}
use candy_runtime.Proto.Error.{NetdProtocolError}
use candy_runtime.Proto.Declaration.{PrepareDeclaration}
use candy_runtime.Proto.Request.{LeaseOwner}
use candy_runtime.Proto.Codec.Request.{encode_request}
use candy_runtime.Netd.Record.{TransactionRecord, NetworkError}
use candy_runtime.Netd.Journal.Encode.{
  refuses_prefixes, refuses_sysctls, refuses_candidate, refuses_candidate_owner, check_record,
  or_journal, prepare_request, candidate_owner, present, recovery_request, fits, fits_option,
  record_bytes, encode_content,
}

abbrev pub Checked : TransactionRecord → Type 0
Checked r =
    (refuses_prefixes r.failed_prefixes ≡ false)
    × (refuses_sysctls r.sysctls ≡ false)
    × (refuses_candidate r ≡ false)
    × (refuses_candidate_owner r r.recovery_candidate_owner ≡ false)

checked : (r : TransactionRecord) → check_record r ≡ ok tt → Checked r
unfolding check_record
checked r h = ground arith

-- The parts of the content.
pub record Stored (r : TransactionRecord) (content : List ℕ) : Type 0 where
  pub request : List ℕ
  pub recovery : Option (List ℕ)
  pub checks : Checked r
  pub request_encoded : encode_request (prepare_request r.owner r.declaration) ≡ ok request
  pub recovery_encoded : recovery_request (candidate_owner r) r.recovery_candidate ≡ ok recovery
  pub content_bytes : content ≡ record_bytes r request recovery

from_journal :
    {A : Type 0} (r : Result NetdProtocolError A) {a : A} → or_journal r ≡ ok a → r ≡ ok a
from_journal (ok b) h = cc
from_journal (err e) h = cc

pub first_step :
    {A C : Type 0} (m : Result NetworkError A) (f : A → Result NetworkError C) {c : C}
    → (m >>= f) ≡ ok c
    → (a : A) × (m ≡ ok a) × (f a ≡ ok c)
first_step (ok a) f h = (a, refl, h)
first_step (err e) f h = cc

pub first_check :
    {C : Type 0} (m : Result NetworkError (Unit {0})) (k : Result NetworkError C) {c : C}
    → (m >> k) ≡ ok c
    → (m ≡ ok tt) × (k ≡ ok c)
first_check (ok done) k h = (refl, h)
first_check (err e) k h = cc

pub stored :
    (r : TransactionRecord) (content : List ℕ) → encode_content r ≡ ok content → Stored r content
unfolding encode_content
stored r content e =
    let (checks, e1) = first_check (check_record r) _ e in
    let (request, written, e2) =
      first_step (or_journal (encode_request (prepare_request r.owner r.declaration))) _ e1 in
    let (recovery, again, e3) =
      first_step (recovery_request (candidate_owner r) r.recovery_candidate) _ e2 in
    let (f1, e4) = first_check (fits 8 (length r.sysctls)) _ e3 in
    let (f2, e5) = first_check (fits 32 (length request)) _ e4 in
    let (f3, e6) = first_check (fits_option recovery) _ e5 in
    record {
      request = request;
      recovery = recovery;
      checks = checked r checks;
      request_encoded = from_journal _ written;
      recovery_encoded = again;
      content_bytes = cc;
    }

-- The encoding of a candidate's request.
pub candidate_stored :
    (owner : LeaseOwner) (d : PrepareDeclaration) (recovery : Option (List ℕ))
    → recovery_request owner (some d) ≡ ok recovery
    → (bytes : List ℕ) × (recovery ≡ some bytes)
      × (encode_request (prepare_request owner d) ≡ ok bytes)
unfolding recovery_request
candidate_stored owner d recovery h = by_result (encode_request (prepare_request owner d)) refl h
  where
    by_result :
        (m : Result NetdProtocolError (List ℕ))
        → encode_request (prepare_request owner d) ≡ m
        → present (or_journal m) ≡ ok recovery
        → (bytes : List ℕ) × (recovery ≡ some bytes)
          × (encode_request (prepare_request owner d) ≡ ok bytes)
    by_result (ok bytes) e k = (bytes, cc, e)
    by_result (err x) e k = cc

pub none_stored :
    (owner : LeaseOwner) (recovery : Option (List ℕ))
    → recovery_request owner none ≡ ok recovery
    → recovery ≡ none
unfolding recovery_request
none_stored owner recovery h = cc

-- What no element is, every element is not.
pub All-any :
    {A : Type 0} (test : A → Bool) (xs : List A)
    → any test xs ≡ false
    → All (λ x. test x ≡ false) xs
All-any test [] h = tt
All-any test (x ∷ xs) h = (ground arith, All-any test xs (ground arith))
