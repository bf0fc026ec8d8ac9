-- ===== src/Netd/Record.antt =====
-- The data of linux/common/apps/candy-netd/src/network.rs: the durable record of the one network
-- transaction, the errors, and the tests on owners and declarations.
use candy_runtime.Prelude.{
  ℕ, ◌+◌, ◌-◌, ◌^◌, Bool, true, false, not, ◌&&◌, ◌||◌, List, [], ◌∷◌, Option, map, ℕ_discrete, ltb,
  ◌==◌, same, if◌then◌else◌, any, keep_if, bit_and, bit_or,
}
use candy_runtime.Proto.Prefix.{
  Ipv4Prefix, Ipv4Prefix-discrete, Bytes-discrete, sort_prefixes, mem_prefix,
}
use candy_runtime.Proto.Declaration.{
  RouteKind, local, RouteDeclaration, PrepareDeclaration, FirewallPolicy-discrete,
  Exclusions-discrete, is_local, is_egress,
}
use candy_runtime.Proto.Request.{LeaseOwner}

pub data TransactionPhase : Type 0 where
  preparing prepared active suspended rolling_back draining : TransactionPhase

pub data SysctlKey : Type 0 where
  ipv4_forward all_rp_filter candy_rp_filter candy_disable_ipv6 : SysctlKey

pub record SysctlChange : Type 0 where
  pub key : SysctlKey
  pub original : ℕ
  pub applied : ℕ

pub record TransactionRecord : Type 0 where
  pub owner : LeaseOwner
  pub declaration : PrepareDeclaration
  pub recovery_candidate : Option PrepareDeclaration
  pub recovery_candidate_owner : Option LeaseOwner
  pub phase : TransactionPhase
  pub completed_steps : ℕ
  pub sysctls : List SysctlChange
  pub drain_deadline_mono_ms : ℕ
  pub failed_prefixes : List Ipv4Prefix

pub data BackendStage : Type 0 where
  preflight link_prepare route_prepare firewall_prepare : BackendStage
  sysctl_prepare link_activate policy_activate : BackendStage

pub data NetworkError : Type 0 where
  conflict invalid_transition backend : NetworkError
  backend_stage : BackendStage → NetworkError
  journal drain_pending : NetworkError

-- `STEP_LINK` to `STEP_POLICY_RULE`, the bits of `completed_steps`
abbrev pub step_link : ℕ
step_link = 1

abbrev pub step_routes : ℕ
step_routes = 2

abbrev pub step_firewall : ℕ
step_firewall = 4

abbrev pub step_sysctls : ℕ
step_sysctls = 8

abbrev pub step_link_active : ℕ
step_link_active = 16

abbrev pub step_policy_rule : ℕ
step_policy_rule = 32

-- `steps & mask != 0`
unfoldable pub has_step : ℕ → ℕ → Bool
has_step steps mask = not (bit_and steps mask == 0)

-- `steps | step` and, on u16, `steps & !step`
unfoldable pub with_step : ℕ → ℕ → ℕ
with_step steps step = bit_or steps step

unfoldable pub without_step : ℕ → ℕ → ℕ
without_step steps step = bit_and steps (2 ^ 16 - 1 - step)

-- `steps & (STEP_LINK | STEP_ROUTES | STEP_FIREWALL) == (STEP_LINK | STEP_ROUTES | STEP_FIREWALL)`
abbrev pub has_tunnel_steps : ℕ → Bool
has_tunnel_steps steps = bit_and steps 7 == 7

abbrev pub is_active : TransactionPhase → Bool
is_active active = true
is_active _ = false

abbrev pub is_suspended : TransactionPhase → Bool
is_suspended suspended = true
is_suspended _ = false

abbrev pub is_prepared : TransactionPhase → Bool
is_prepared prepared = true
is_prepared _ = false

abbrev pub is_draining : TransactionPhase → Bool
is_draining draining = true
is_draining _ = false

abbrev pub is_rolling_back : TransactionPhase → Bool
is_rolling_back rolling_back = true
is_rolling_back _ = false

-- `Preparing | Prepared`
abbrev pub is_staging : TransactionPhase → Bool
is_staging preparing = true
is_staging prepared = true
is_staging _ = false

-- `ensure_owner` and `ensure_reconfigure_owner`, as tests
abbrev pub is_process : LeaseOwner → LeaseOwner → Bool
is_process retained request =
    same Bytes-discrete retained.instance_id request.instance_id && (retained.pid == request.pid)

abbrev pub is_owner : LeaseOwner → LeaseOwner → Bool
is_owner retained request =
    is_process retained request && (retained.generation == request.generation)

-- `Remote | RemoteEgress | RemoteEgressGateway`
abbrev pub is_remote : RouteKind → Bool
is_remote local = false
is_remote _ = true

-- Some route of the declaration is a remote one with this very prefix.
unfoldable pub has_remote_route : List RouteDeclaration → Ipv4Prefix → Bool
has_remote_route routes prefix =
    any (λ r. same Ipv4Prefix-discrete r.prefix prefix && is_remote r.kind) routes

unfoldable pub Prefixes-discrete : Discrete (List Ipv4Prefix)
Prefixes-discrete = hlevel ℕ_discrete

abbrev pub local_prefixes : List RouteDeclaration → List Ipv4Prefix
local_prefixes routes = map (λ r. r.prefix) (keep_if (λ r. is_local r.kind) routes)

abbrev pub has_egress : List RouteDeclaration → Bool
has_egress routes = any (λ r. is_egress r.kind) routes

abbrev pub differ : Bool → Bool → Bool
differ true b = not b
differ false b = b

unfoldable pub firewall_policy_changed : PrepareDeclaration → PrepareDeclaration → Bool
firewall_policy_changed current candidate =
    not (same FirewallPolicy-discrete current.firewall candidate.firewall)
    || not (
        same Prefixes-discrete (sort_prefixes (local_prefixes current.routes))
          (sort_prefixes (local_prefixes candidate.routes)))
    || differ (has_egress current.routes) (has_egress candidate.routes)

unfoldable pub same_tunnel_declaration : PrepareDeclaration → PrepareDeclaration → Bool
same_tunnel_declaration current candidate =
    (current.table_id == candidate.table_id)
    && same Bytes-discrete current.overlay_router_ipv4 candidate.overlay_router_ipv4
    && (current.effective_mtu == candidate.effective_mtu)
    && same Exclusions-discrete current.exclusions candidate.exclusions

-- Where a failed prefix has its route replaced by a throw route, cleanup removes that one.
unfoldable pub mark_failed : List Ipv4Prefix → List RouteDeclaration → List RouteDeclaration
mark_failed failed [] = []
mark_failed failed (r ∷ rs) =
    (if mem_prefix failed r.prefix then record r { kind = local } else r) ∷ mark_failed failed rs

-- `u64::saturating_add`
abbrev pub saturating_add : ℕ → ℕ → ℕ
saturating_add a b = if ltb (a + b) (2 ^ 64) then a + b else 2 ^ 64 - 1
