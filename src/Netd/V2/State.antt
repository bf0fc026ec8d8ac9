-- ===== src/Netd/V2/State.antt =====
-- The durable state of linux/common/apps/candy-netd/src/v2.rs and the checks on it. A text is the list
-- of its bytes.
use candy_runtime.Prelude.{
  ℕ, ◌+◌, ◌-◌, ◌*◌, ◌/◌, ◌^◌, Bool, true, false, not, ◌&&◌, ◌||◌, List, [], ◌∷◌, Option, none, some,
  ltb, leb, ◌==◌, same, map, keep_if, is_some, unwrap_or, if◌then◌else◌, ℕ_discrete, ok, err,
}
use candy_runtime.Proto.Prefix.{Ipv4Prefix, Bytes-discrete, mem_prefix}
use candy_runtime.Proto.Declaration.{
  PrepareDeclaration, RouteDeclaration, RouteKind, remote, validate_declaration,
  FirewallPolicy-discrete, Exclusions-discrete,
}
use candy_runtime.Proto.V2.{InfraSpec, ForwardOwner, ForwardAuthority, Phase, active}
use candy_runtime.Proto.V2.Validate.{Validity, validate_spec, validate_owner, is_hex}
use candy_runtime.Netd.Record.{SysctlChange}

pub record PendingPolicy : Type 0 where
  pub cancelled : Bool
  pub revision : ℕ
  pub generation : ℕ
  pub authorization_snapshot_sha256 : List ℕ
  pub declaration : PrepareDeclaration

pub record ForwardRecord : Type 0 where
  pub owner : ForwardOwner
  pub declaration : PrepareDeclaration
  pub phase : Phase
  pub failure_revision : ℕ
  pub failed_prefixes : List Ipv4Prefix
  pub pending_failed_prefixes : Option (List Ipv4Prefix)
  pub pending_failure_revision : Option ℕ
  pub authority : Option ForwardAuthority
  pub policy_revision : ℕ
  pub policy_generation : Option ℕ
  pub policy_hash : Option (List ℕ)
  pub pending_policy : Option PendingPolicy

pub record IoOwner : Type 0 where
  pub instance_id : List ℕ
  pub pid : ℕ
  pub io_epoch : ℕ
  pub boot_id : List ℕ
  pub start_ticks : Option ℕ

pub record State : Type 0 where
  pub boot_id : List ℕ
  pub spec : Option InfraSpec
  pub ifindex : Option ℕ
  pub ownership_marker : Option (List ℕ)
  pub creation_pending : Bool
  pub administrator : Option (List ℕ)
  pub io_owner : Option IoOwner
  pub last_io_epoch : ℕ
  pub forward : Option ForwardRecord
  pub candidate : Option ForwardRecord
  pub last_fencing_token : ℕ
  pub sysctls : List SysctlChange

-- `State::default()`
abbrev pub default_state : State
default_state = record {
  boot_id = [];
  spec = none;
  ifindex = none;
  ownership_marker = none;
  creation_pending = false;
  administrator = none;
  io_owner = none;
  last_io_epoch = 0;
  forward = none;
  candidate = none;
  last_fencing_token = 0;
  sysctls = [];
}

-- A record that nothing has happened to.
abbrev pub new_record : ForwardOwner → PrepareDeclaration → Phase → ForwardRecord
new_record owner d phase = record {
  owner = owner;
  declaration = d;
  phase = phase;
  failure_revision = 0;
  failed_prefixes = [];
  pending_failed_prefixes = none;
  pending_failure_revision = none;
  authority = none;
  policy_revision = 0;
  policy_generation = none;
  policy_hash = none;
  pending_policy = none;
}

unfoldable pub Phase-discrete : Discrete Phase
Phase-discrete = hlevel

unfoldable pub Number-discrete : Discrete (Option ℕ)
Number-discrete = hlevel ℕ_discrete

unfoldable pub Text-discrete : Discrete (Option (List ℕ))
Text-discrete = hlevel ℕ_discrete

unfoldable pub Prefixes-discrete : Discrete (List Ipv4Prefix)
Prefixes-discrete = hlevel ℕ_discrete

abbrev pub in_phase : Phase → ForwardRecord → Bool
in_phase phase f = same Phase-discrete f.phase phase

-- `clock::owner_is_live`
unfoldable pub owner_is_live : ForwardOwner → ℕ → Bool
owner_is_live o now = ltb now (
    if ltb o.lease_deadline_mono_ms o.auth_deadline_mono_ms
    then o.lease_deadline_mono_ms
    else o.auth_deadline_mono_ms)

-- `clock::proof_is_fresh`, on u64 with saturating arithmetic
unfoldable pub proof_is_fresh : ℕ → ℕ → Bool
proof_is_fresh now reported =
    leb reported (if ltb (now + 50) (2 ^ 64) then now + 50 else 2 ^ 64 - 1)
    && leb (now - reported) 5000

-- `clock::timespec_ms`, for seconds and nanoseconds that are not negative; none is an invalid value.
unfoldable pub timespec_ms : ℕ → ℕ → Option ℕ
timespec_ms seconds nanos =
    if leb 1000000000 nanos
    then none
    else if leb (2 ^ 64) (seconds * 1000)
    then none
    else if leb (2 ^ 64) (seconds * 1000 + nanos / 1000000)
    then none
    else some (seconds * 1000 + nanos / 1000000)

abbrev pub is_remote_route : RouteKind → Bool
is_remote_route remote = true
is_remote_route _ = false

-- The prefixes of the routes of kind `Remote`
abbrev pub authorized : List RouteDeclaration → List Ipv4Prefix
authorized routes = map (λ r. r.prefix) (keep_if (λ r. is_remote_route r.kind) routes)

abbrev pub unique_among : List Ipv4Prefix → List Ipv4Prefix → List Ipv4Prefix → Bool
unique_among allowed seen [] = true
unique_among allowed seen (p ∷ ps) =
    let rest = unique_among allowed (p ∷ seen) ps in
    not (mem_prefix seen p) && mem_prefix allowed p && rest

-- `validate_failed_prefixes`, as a test
unfoldable pub are_failed_prefixes : PrepareDeclaration → List Ipv4Prefix → Bool
are_failed_prefixes d failed = unique_among (authorized d.routes) [] failed

-- `validate_live_policy_identity`, as a test
unfoldable pub changes_infrastructure : PrepareDeclaration → PrepareDeclaration → Bool
changes_infrastructure previous target =
    not (previous.table_id == target.table_id)
    || not (same Bytes-discrete previous.overlay_router_ipv4 target.overlay_router_ipv4)
    || not (previous.effective_mtu == target.effective_mtu)
    || not (same Exclusions-discrete previous.exclusions target.exclusions)
    || not (same FirewallPolicy-discrete previous.firewall target.firewall)

abbrev pub passes : Validity → Bool
passes (ok done) = true
passes (err e) = false

abbrev pub valid_metadata : ForwardRecord → ℕ → Option ℕ → Option (List ℕ) → Bool
valid_metadata f revision (some generation) (some hash) =
    not (revision == 0) && leb f.owner.signed_generation generation && is_hex hash 64
valid_metadata f revision none none = revision == 0
valid_metadata f revision _ _ = false

abbrev pub valid_pending_prefixes : PrepareDeclaration → Option (List Ipv4Prefix) → Bool
valid_pending_prefixes d none = true
valid_pending_prefixes d (some pending) = are_failed_prefixes d pending

abbrev pub valid_pending_policy : State → ForwardRecord → Option PendingPolicy → Bool
valid_pending_policy s f none = true
valid_pending_policy s f (some p) =
    passes (validate_declaration p.declaration)
    && not (changes_infrastructure f.declaration p.declaration)
    && not (
        leb p.revision f.policy_revision
        || ltb p.generation (unwrap_or f.policy_generation f.owner.signed_generation)
        || not (is_hex p.authorization_snapshot_sha256 64)
        || is_some f.pending_failed_prefixes
        || is_some s.candidate
        || not (in_phase active f))

abbrev pub valid_revisions : ForwardRecord → Option (List Ipv4Prefix) → Option ℕ → Bool
valid_revisions f (some pending) (some revision) = ltb f.failure_revision revision
valid_revisions f none none = true
valid_revisions f _ _ = false

unfoldable pub is_loadable_record : State → ForwardRecord → Bool
is_loadable_record s f =
    passes (validate_owner f.owner)
    && passes (validate_declaration f.declaration)
    && are_failed_prefixes f.declaration f.failed_prefixes
    && valid_pending_prefixes f.declaration f.pending_failed_prefixes
    && valid_metadata f f.policy_revision f.policy_generation f.policy_hash
    && valid_pending_policy s f f.pending_policy
    && valid_revisions f f.pending_failed_prefixes f.pending_failure_revision

abbrev pub all_some : {A : Type 0} → (A → Bool) → Option A → Bool
all_some test none = true
all_some test (some a) = test a

-- What `InfrastructureJournal::load` asks of a state whose checksum is right.
unfoldable pub is_loadable : State → Bool
is_loadable s =
    all_some (λ spec. passes (validate_spec spec)) s.spec
    && all_some (is_loadable_record s) s.forward
    && all_some (is_loadable_record s) s.candidate
