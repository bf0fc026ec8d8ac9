-- ===== src/Proto/Declaration.antt =====
-- `PrepareDeclaration` of linux/common/crates/candy-netd-proto/src/lib.rs and its validation.
use candy_runtime.Prelude.{
  ℕ, ◌-◌, Bool, true, false, not, ◌&&◌, ◌||◌, List, [], ◌∷◌, bit_or, Option, none, some, map,
  ℕ_discrete, ltb, leb, ◌==◌, same, if◌then◌else◌, Result, ◌>>◌, refuse_if, any, all_pairs, keep_if,
  is_empty, length,
}
use candy_runtime.Proto.Error.{NetdProtocolError, invalid_declaration}
use candy_runtime.Proto.Prefix.{
  Ipv4Prefix, Ipv4Prefix-discrete, Bytes-discrete, from_be_bytes, prefix_mask, u32_max, contains,
  overlaps, prefix_lt,
}

pub data RouteKind : Type 0 where
  local remote remote_egress remote_egress_gateway : RouteKind

pub data UnderlayKind : Type 0 where
  cloud_api hub_endpoint management : UnderlayKind

-- `kind as u64`
abbrev pub route_tag : RouteKind → ℕ
route_tag local = 1
route_tag remote = 2
route_tag remote_egress = 3
route_tag remote_egress_gateway = 4

abbrev pub underlay_tag : UnderlayKind → ℕ
underlay_tag cloud_api = 1
underlay_tag hub_endpoint = 2
underlay_tag management = 3

pub record RouteDeclaration : Type 0 where
  pub prefix : Ipv4Prefix
  pub kind : RouteKind

pub record UnderlayExclusion : Type 0 where
  pub prefix : Ipv4Prefix
  pub kind : UnderlayKind

pub record FirewallPolicy : Type 0 where
  pub allow_forward : Bool
  pub clamp_tcp_mss : Bool
  pub require_ipv4_forwarding : Bool
  pub manage_rp_filter : Bool

pub record PrepareDeclaration : Type 0 where
  pub table_id : ℕ
  pub overlay_router_ipv4 : List ℕ
  pub effective_mtu : ℕ
  pub routes : List RouteDeclaration
  pub exclusions : List UnderlayExclusion
  pub firewall : FirewallPolicy

unfoldable pub Routes-discrete : Discrete (List RouteDeclaration)
Routes-discrete = hlevel ℕ_discrete

unfoldable pub Exclusions-discrete : Discrete (List UnderlayExclusion)
Exclusions-discrete = hlevel ℕ_discrete

unfoldable pub FirewallPolicy-discrete : Discrete FirewallPolicy
FirewallPolicy-discrete = hlevel

unfoldable pub PrepareDeclaration-discrete : Discrete PrepareDeclaration
PrepareDeclaration-discrete = hlevel ℕ_discrete

abbrev pub candy_table_min : ℕ
candy_table_min = 20000

abbrev pub candy_table_max : ℕ
candy_table_max = 20999

abbrev pub max_routes : ℕ
max_routes = 65536

abbrev pub max_exclusions : ℕ
max_exclusions = 64

abbrev pub is_local : RouteKind → Bool
is_local local = true
is_local _ = false

abbrev pub is_remote_egress : RouteKind → Bool
is_remote_egress remote_egress = true
is_remote_egress _ = false

-- `RemoteEgress | RemoteEgressGateway`
abbrev pub is_egress : RouteKind → Bool
is_egress remote_egress = true
is_egress remote_egress_gateway = true
is_egress _ = false

-- `(a, m) < (b, n)` for prefixes `a`, `b` and numbers `m`, `n`
abbrev pub keyed_lt : Ipv4Prefix → ℕ → Ipv4Prefix → ℕ → Bool
keyed_lt a m b n = prefix_lt a b || (same Ipv4Prefix-discrete a b && ltb m n)

abbrev pub route_lt : RouteDeclaration → RouteDeclaration → Bool
route_lt a b = keyed_lt a.prefix (route_tag a.kind) b.prefix (route_tag b.kind)

abbrev pub exclusion_lt : UnderlayExclusion → UnderlayExclusion → Bool
exclusion_lt a b = keyed_lt a.prefix (underlay_tag a.kind) b.prefix (underlay_tag b.kind)

-- `strictly_sorted_by`, at the order on keys that its two callers use
abbrev pub strictly_sorted_by {ℓ} : {A : Type ℓ} → (A → A → Bool) → List A → Bool
strictly_sorted_by lt values = all_pairs lt values

-- The addresses of a prefix, from `start` to `end`.
abbrev pub range_of : Ipv4Prefix → ℕ × ℕ
range_of prefix =
    let start = from_be_bytes prefix.network in
    (start, bit_or start (u32_max - prefix_mask prefix.prefix_len))

-- `sort_unstable` on pairs: equal pairs cannot be told apart.
unfoldable pub insert_range : ℕ × ℕ → List (ℕ × ℕ) → List (ℕ × ℕ)
insert_range r [] = r ∷ []
insert_range r (s ∷ ss) =
    if ltb s.0 r.0 || ((s.0 == r.0) && ltb s.1 r.1) then s ∷ insert_range r ss else r ∷ s ∷ ss

unfoldable pub sort_ranges : List (ℕ × ℕ) → List (ℕ × ℕ)
unfolding insert_range
sort_ranges [] = []
sort_ranges (r ∷ rs) = insert_range r (sort_ranges rs)

-- The loop over the sorted ranges; the option is `furthest_end`.
unfoldable pub sweep : Option ℕ → List (ℕ × ℕ) → Bool
sweep furthest_end [] = false
sweep none ((start, end) ∷ rest) = sweep (some end) rest
sweep (some previous_end) ((start, end) ∷ rest) = leb start previous_end || sweep (some end) rest

unfoldable pub has_prefix_overlap : List Ipv4Prefix → Bool
unfolding from_be_bytes prefix_mask sort_ranges sweep
has_prefix_overlap prefixes = sweep none (sort_ranges (map range_of prefixes))

-- The prefixes of the routes that are no remote egress.
abbrev pub site_prefixes : List RouteDeclaration → List Ipv4Prefix
site_prefixes routes = map (λ r. r.prefix) (keep_if (λ r. not (is_remote_egress r.kind)) routes)

abbrev pub exclusion_prefixes : List UnderlayExclusion → List Ipv4Prefix
exclusion_prefixes exclusions = map (λ e. e.prefix) exclusions

abbrev pub head_octet : List ℕ → ℕ
head_octet [] = 0
head_octet (x ∷ xs) = x

-- The first test of `PrepareDeclaration::validate`: sizes and ranges.
unfoldable pub out_of_bounds : PrepareDeclaration → Bool
out_of_bounds d =
    not (leb candy_table_min d.table_id && leb d.table_id candy_table_max)
    || not (leb 576 d.effective_mtu && leb d.effective_mtu 1400)
    || is_empty d.routes
    || ltb max_routes (length d.routes)
    || is_empty d.exclusions
    || ltb max_exclusions (length d.exclusions)

-- The second: order, default routes, overlaps and the router's own address.
unfoldable pub has_conflict : PrepareDeclaration → Bool
unfolding has_prefix_overlap overlaps contains prefix_lt
has_conflict d =
    not (strictly_sorted_by route_lt d.routes)
    || not (strictly_sorted_by exclusion_lt d.exclusions)
    || any (λ r. (r.prefix.prefix_len == 0) && not (is_remote_egress r.kind)) d.routes
    || any (λ e. e.prefix.prefix_len == 0) d.exclusions
    || has_prefix_overlap (site_prefixes d.routes)
    || has_prefix_overlap (exclusion_prefixes d.exclusions)
    || any
        (λ r. not (is_remote_egress r.kind) && any (λ e. overlaps r.prefix e.prefix) d.exclusions)
        d.routes
    || any (λ r. not (is_remote_egress r.kind) && contains r.prefix d.overlay_router_ipv4) d.routes
    || any (λ e. contains e.prefix d.overlay_router_ipv4) d.exclusions
    || same Bytes-discrete d.overlay_router_ipv4 (0 ∷ 0 ∷ 0 ∷ 0 ∷ [])
    || leb 224 (head_octet d.overlay_router_ipv4)

unfoldable pub validate_declaration : PrepareDeclaration → Result NetdProtocolError (Unit {0})
validate_declaration d = do
  refuse_if (out_of_bounds d) invalid_declaration
  refuse_if (has_conflict d) invalid_declaration

-- `PrepareDeclaration::scoped_to_prefixes`
unfoldable pub scoped_to_prefixes : PrepareDeclaration → List Ipv4Prefix → PrepareDeclaration
scoped_to_prefixes d prefixes =
    let matches = λ (p : Ipv4Prefix). any (λ q. same Ipv4Prefix-discrete q p) prefixes in
    record d {
      routes = keep_if (λ r. matches r.prefix) d.routes;
      exclusions = keep_if (λ e. matches e.prefix) d.exclusions;
    }
