-- ===== src/Netd/Replacement/Successes.antt =====
-- A replacement or a policy update that succeeds.
use candy_runtime.Prelude.{
  ℕ, ◌⊎◌, ◌≤◌, [], if◌then◌else◌, Bool, true, false, ◌≡◌, refl, ap, ◌||◌, not, none, some, Result,
  ok, arith, ◌∙◌, is_some, same, keep_if,
}
use candy_runtime.Prelude.Tests.{same-true}
use candy_runtime.Proto.Prefix.{Bytes-discrete}
use candy_runtime.Proto.Declaration.{
  Exclusions-discrete, PrepareDeclaration, PrepareDeclaration-discrete, validate_declaration,
}
use candy_runtime.Proto.Error.{NetdProtocolError}
use candy_runtime.Proto.Request.{LeaseOwner}
use candy_runtime.Netd.Record.{
  TransactionRecord, NetworkError, prepared, active, suspended, is_owner, is_process, is_active,
  is_staging, has_remote_route,
}
use candy_runtime.Netd.Interface.{
  ⊤, Tx, current, raise_if, NetworkBackend, NetworkJournal, NetworkTransaction, ◌>>=◌, ◌>>◌, save,
  replace,
}
use candy_runtime.Netd.Transaction.Replace
use candy_runtime.Netd.Transaction.Policy
use candy_runtime.Netd.Transaction.Policy.{changes_tunnel, updated_record}
use candy_runtime.Netd.Transaction.Lifecycle.{valid_or_backend, discard_candidate}
use candy_runtime.Netd.Transaction.Recover.{recover_orphan, is_policy_update}
use candy_runtime.Netd.Outcomes.{holding, given_up}

-- A suspended record that takes another declaration.
abbrev pub exchanged : LeaseOwner → PrepareDeclaration → TransactionRecord → TransactionRecord
exchanged owner d r = record r {
  owner = owner;
  declaration = d;
  failed_prefixes = [];
  drain_deadline_mono_ms = 0;
}

-- The record with another policy: its failed prefixes are cut to the routes of that policy.
abbrev pub updated : PrepareDeclaration → TransactionRecord → TransactionRecord
updated d r = record r {
  declaration = d;
  recovery_candidate = none;
  recovery_candidate_owner = none;
  failed_prefixes = keep_if (has_remote_route d.routes) r.failed_prefixes;
}

-- The same tunnel under another policy.
abbrev pub HasTunnel : PrepareDeclaration → PrepareDeclaration → Type 0
HasTunnel a b =
    (a.table_id ≡ b.table_id)
    × (a.overlay_router_ipv4 ≡ b.overlay_router_ipv4)
    × (a.effective_mtu ≡ b.effective_mtu)
    × (a.exclusions ≡ b.exclusions)

refuted : (c : Bool) → not c ≡ false → c ≡ true
refuted true h = refl
refuted false h = ground arith

gates :
    (a c t o : Bool)
    → (not a || c || t) ≡ false
    → not o ≡ false
    → (t ≡ false) × (o ≡ true) × (c ≡ false)
gates a c t o g h = ground arith

none_of :
    (a b c d : Bool)
    → (not a || not b || not c || not d) ≡ false
    → (a ≡ true) × (b ≡ true) × (c ≡ true) × (d ≡ true)
none_of a b c d h = ground arith

same_parts : (a b : PrepareDeclaration) → changes_tunnel a b ≡ false → HasTunnel a b
same_parts a b h =
    let (table, router, mtu, exclusions) = none_of _ _ _ _ h in
    (
      ground arith,
      same-true Bytes-discrete _ _ router,
      ground arith,
      same-true Exclusions-discrete _ _ exclusions,
    )

module _ {B J : Type 0} ⦃backend : NetworkBackend B⦄ ⦃journal : NetworkJournal J⦄ where
  -- What a success says of a method that validates, reads the record and checks it.
  past_checks :
      (v : Result NetdProtocolError ⊤) (f : TransactionRecord → Bool) (e : NetworkError)
      (m : TransactionRecord → Tx B J ⊤) (b : B) (j : J) (r : TransactionRecord)
      → ((valid_or_backend v >> (current >>= λ q. raise_if (f q) e >> m q)) (holding b j r)).0
        ≡ ok tt
      → ((valid_or_backend v >> (current >>= λ q. raise_if (f q) e >> m q)) (holding b j r)
          ≡ m r (holding b j r))
        × (v ≡ ok tt)
        × (f r ≡ false)
  unfolding ◌>>◌
  past_checks v f e m b j r h = ground arith

  past_check :
      (c : Bool) (e : NetworkError) (m : Tx B J ⊤) (s : NetworkTransaction B J)
      → ((raise_if c e >> m) s).0 ≡ ok tt
      → ((raise_if c e >> m) s ≡ m s) × (c ≡ false)
  unfolding ◌>>◌
  past_check true e m s h = ground arith
  past_check false e m s h = (refl, refl)

  otherwise :
      (c : Bool) (m n : Tx B J ⊤) (s : NetworkTransaction B J)
      → c ≡ false
      → (if c then m else n) s ≡ n s
  otherwise true m n s h = ground arith
  otherwise false m n s h = refl

  change_policy-updates :
      (owner : LeaseOwner) (d : PrepareDeclaration) (b : B) (j : J) (r : TransactionRecord)
      → (Policy.change_policy owner d r (holding b j r)).0 ≡ ok tt
      → (Policy.change_policy owner d r (holding b j r)).1.retained ≡ some (updated d r)
  unfolding Policy.change_policy ◌>>◌ save replace updated_record
  change_policy-updates owner d b j r h = ground arith

  exchange_declaration-exchanges :
      (owner : LeaseOwner) (d : PrepareDeclaration) (b : B) (j : J) (r : TransactionRecord)
      → (Replace.exchange_declaration owner d r (holding b j r)).0 ≡ ok tt
      → (Replace.exchange_declaration owner d r (holding b j r)).1.retained
        ≡ some (exchanged owner d r)
  unfolding Replace.exchange_declaration ◌>>◌ save replace
  exchange_declaration-exchanges owner d b j r h = ground arith

  -- Recovery that does something to a record with a candidate in phase preparing or prepared drops
  -- the candidate and leaves the old declaration active; it does so only where the owner is dead or
  -- its lease has ended.
  pub recover_orphan-discards :
      (alive : Bool) (now : ℕ) (b : B) (j : J) (r : TransactionRecord) {c : PrepareDeclaration}
      → r.recovery_candidate ≡ some c
      → is_staging r.phase ≡ true
      → (recover_orphan alive now (holding b j r)).0 ≡ ok true
      → ((recover_orphan alive now (holding b j r)).1.retained ≡ some (given_up r))
        × ((alive ≡ false) ⊎ (r.owner.lease_deadline_mono_ms ≤ now))
  unfolding recover_orphan is_policy_update discard_candidate ◌>>◌ save
  recover_orphan-discards alive now b j r e p h = ground arith

  -- A PolicyUpdate to another declaration that succeeds leaves the record with that declaration, its
  -- failed prefixes cut to the remote routes of the new declaration, and no candidate; owner, phase,
  -- completed steps and sysctls are unchanged. It comes from the owner at its generation, no
  -- replacement was staged, and table, router, MTU and exclusions are those of the old declaration.
  pub update_policy-updates :
      (owner : LeaseOwner) (d : PrepareDeclaration) (b : B) (j : J) (r : TransactionRecord)
      → same PrepareDeclaration-discrete r.declaration d ≡ false
      → (Policy.update_policy owner d (holding b j r)).0 ≡ ok tt
      → ((Policy.update_policy owner d (holding b j r)).1.retained ≡ some (updated d r))
        × HasTunnel r.declaration d
        × (is_owner r.owner owner ≡ true)
        × (is_some r.recovery_candidate ≡ false)
  unfolding Policy.update_policy
  update_policy-updates owner d b j r n h =
      let s = holding b j r in
      let (checked, v, f) =
        past_checks (validate_declaration d) (λ q. not (is_owner q.owner owner)) _ _ b j r h in
      let (passed, g) = past_check _ _ _ s (rw checked at h) in
      let changed = otherwise _ (Policy.repair_rule d r) (Policy.change_policy owner d r) s n in
      let whole : Policy.update_policy owner d s ≡ Policy.change_policy owner d r s =
        checked ∙ passed ∙ changed in
      let (same_tunnel, owned, no_candidate) = gates _ _ _ _ g f in
      (
        ap (λ q. q.1.retained) whole ∙ change_policy-updates owner d b j r (rw whole at h),
        same_parts r.declaration d same_tunnel,
        owned,
        no_candidate,
      )

  -- A Reconfigure of a suspended record to another declaration that succeeds hands the record to
  -- the caller with the new declaration, no failed prefixes and no drain deadline, still suspended
  -- and with the same completed steps. The caller is the owner's process, of any generation, and the
  -- declaration is valid.
  pub reconfigure-exchanges :
      (owner : LeaseOwner) (d : PrepareDeclaration) (b : B) (j : J) (r : TransactionRecord)
      → r.phase ≡ suspended
      → same PrepareDeclaration-discrete r.declaration d ≡ false
      → (Replace.reconfigure owner d (holding b j r)).0 ≡ ok tt
      → ((Replace.reconfigure owner d (holding b j r)).1.retained ≡ some (exchanged owner d r))
        × (is_process r.owner owner ≡ true)
        × (validate_declaration d ≡ ok tt)
  unfolding Replace.reconfigure
  reconfigure-exchanges owner d b j r p n h =
      let s = holding b j r in
      let (checked, v, f) =
        past_checks (validate_declaration d) (λ q. not (is_process q.owner owner)) _ _ b j r h in
      let branch =
        otherwise (is_active r.phase) (Replace.prepare_replacement owner d)
          (Replace.reconfigure_inactive owner d r) s (ap is_active p) in
      let inactive : Replace.reconfigure owner d s ≡ Replace.reconfigure_inactive owner d r s =
        checked ∙ branch in
      let (passed, g) = past_check _ _ _ s (rw inactive at h) in
      let changed =
        otherwise _ (Replace.hand_over owner r) (Replace.exchange_declaration owner d r) s n in
      let whole : Replace.reconfigure owner d s ≡ Replace.exchange_declaration owner d r s =
        inactive ∙ passed ∙ changed in
      (
        ap (λ q. q.1.retained) whole ∙ exchange_declaration-exchanges owner d b j r (rw whole at h),
        refuted _ f,
        v,
      )

  -- A Reconfigure of an active record without a candidate to another declaration that succeeds
  -- stages that declaration and the caller as the candidate: the record is prepared, without a drain
  -- deadline, and its own declaration and owner are unchanged. The caller is the owner's process and
  -- the declaration is valid.
  pub reconfigure-stages :
      (owner : LeaseOwner) (d : PrepareDeclaration) (b : B) (j : J) (r : TransactionRecord)
      → r.phase ≡ active
      → r.recovery_candidate ≡ none
      → same PrepareDeclaration-discrete r.declaration d ≡ false
      → (Replace.reconfigure owner d (holding b j r)).0 ≡ ok tt
      → ((Replace.reconfigure owner d (holding b j r)).1.retained
          ≡ some (record r {
            phase = prepared;
            recovery_candidate = some d;
            recovery_candidate_owner = some owner;
            drain_deadline_mono_ms = 0;
          }))
        × (is_process r.owner owner ≡ true)
        × (validate_declaration d ≡ ok tt)
  unfolding Replace.reconfigure ◌>>◌ save replace
  reconfigure-stages owner d b j r p e n h = ground arith
