-- ===== src/Proto/Codec/Declaration/RoundTrip.antt =====
-- Declarations survive the wire, in both directions.
use candy_runtime.Prelude.{◌^◌, ◌<◌, ◌≤◌, ◌≡◌, refl, ok, arith, length, All}
use candy_runtime.Proto.Error.{invalid_declaration}
use candy_runtime.Proto.Declaration.{
  RouteKind, local, remote, remote_egress, remote_egress_gateway, UnderlayKind, cloud_api,
  hub_endpoint, management, route_tag, underlay_tag, RouteDeclaration, UnderlayExclusion,
  FirewallPolicy, PrepareDeclaration, max_routes, max_exclusions, validate_declaration,
  out_of_bounds,
}
use candy_runtime.Proto.Codec.Reader.Reads.{
  Reads, Reads-bind, Reads-step, Reads-last, Reads-pure, Reads-lift, Reads-varint, Reads-fixed,
  Reads-narrow, Reads-count, Reads-boolean, Reads-prefix, Reads-many, IsPrefix, HasOctets,
  IsCanonical, made_prefixes,
}
use candy_runtime.Proto.Codec.Declaration.{
  route_kind, underlay_kind, encode_route, encode_exclusion, encode_firewall, encode_declaration,
  decode_route, decode_exclusion, decode_firewall, decode_fields, decode_declaration,
}

route_kind-route_tag : (k : RouteKind) → route_kind (route_tag k) ≡ ok k
route_kind-route_tag local = refl
route_kind-route_tag remote = refl
route_kind-route_tag remote_egress = refl
route_kind-route_tag remote_egress_gateway = refl

underlay_kind-underlay_tag : (k : UnderlayKind) → underlay_kind (underlay_tag k) ≡ ok k
underlay_kind-underlay_tag cloud_api = refl
underlay_kind-underlay_tag hub_endpoint = refl
underlay_kind-underlay_tag management = refl

route_tag_bound : (k : RouteKind) → route_tag k < 2 ^ 64
route_tag_bound local = omega arith
route_tag_bound _ = omega arith

underlay_tag_bound : (k : UnderlayKind) → underlay_tag k < 2 ^ 64
underlay_tag_bound cloud_api = omega arith
underlay_tag_bound _ = omega arith

Reads-route : (r : RouteDeclaration) → IsPrefix r.prefix → Reads decode_route (encode_route r) r
unfolding decode_route encode_route
Reads-route r h = Reads-bind _ (Reads-prefix r.prefix h) (
    Reads-last _ (Reads-varint (route_tag r.kind) (route_tag_bound r.kind))
      (Reads-step _ (Reads-lift r.kind (route_kind-route_tag r.kind)) (Reads-pure r)))

Reads-exclusion :
    (e : UnderlayExclusion) → IsPrefix e.prefix → Reads decode_exclusion (encode_exclusion e) e
unfolding decode_exclusion encode_exclusion
Reads-exclusion e h = Reads-bind _ (Reads-prefix e.prefix h) (
    Reads-last _ (Reads-varint (underlay_tag e.kind) (underlay_tag_bound e.kind))
      (Reads-step _ (Reads-lift e.kind (underlay_kind-underlay_tag e.kind)) (Reads-pure e)))

Reads-firewall : (f : FirewallPolicy) → Reads decode_firewall (encode_firewall f) f
unfolding decode_firewall encode_firewall
Reads-firewall f = Reads-bind _ (Reads-boolean f.allow_forward) (
    Reads-bind _ (Reads-boolean f.clamp_tcp_mss) (
      Reads-bind _ (Reads-boolean f.require_ipv4_forwarding)
        (Reads-last _ (Reads-boolean f.manage_rp_filter) (Reads-pure f))))

-- What the types of the source say of a declaration: arrays have their length.
pub record FitsDeclaration (d : PrepareDeclaration) : Type 0 where
  pub router : length d.overlay_router_ipv4 ≡ 4
  pub routes : All (λ r. HasOctets r.prefix) d.routes
  pub exclusions : All (λ e. HasOctets e.prefix) d.exclusions

-- No prefix of a declaration has host bits set, which `validate` does not ask for.
pub record CanonicalDeclaration (d : PrepareDeclaration) : Type 0 where
  pub routes : All (λ r. IsCanonical r.prefix) d.routes
  pub exclusions : All (λ e. IsCanonical e.prefix) d.exclusions

-- Arrays have their length, and no prefix has host bits set.
pub record IsTyped (d : PrepareDeclaration) : Type 0 where
  pub router : length d.overlay_router_ipv4 ≡ 4
  pub routes : All (λ r. IsPrefix r.prefix) d.routes
  pub exclusions : All (λ e. IsPrefix e.prefix) d.exclusions

pub made-IsTyped : (d : PrepareDeclaration) → FitsDeclaration d → CanonicalDeclaration d → IsTyped d
made-IsTyped d h k = record {
  router = h.router;
  routes = made_prefixes (λ r. r.prefix) d.routes h.routes k.routes;
  exclusions = made_prefixes (λ e. e.prefix) d.exclusions h.exclusions k.exclusions;
}

-- What validation says of the numbers in a declaration.
abbrev Bounded : PrepareDeclaration → Type 0
Bounded d =
    (d.table_id < 2 ^ 32)
    × (d.effective_mtu < 2 ^ 16)
    × (1 ≤ length d.routes)
    × (length d.routes ≤ max_routes)
    × (1 ≤ length d.exclusions)
    × (length d.exclusions ≤ max_exclusions)

valid_bounds : (d : PrepareDeclaration) → validate_declaration d ≡ ok tt → Bounded d
unfolding validate_declaration out_of_bounds
valid_bounds d v = ground arith

Reads-fields :
    (d : PrepareDeclaration) → IsTyped d → Bounded d → Reads decode_fields (encode_declaration d) d
unfolding decode_fields encode_declaration
Reads-fields d t (table, mtu, r1, r2, e1, e2) =
    Reads-bind _ (Reads-narrow 32 invalid_declaration d.table_id table (omega arith)) (
      Reads-bind _ (Reads-fixed _ d.overlay_router_ipv4 t.router) (
        Reads-bind _ (Reads-narrow 16 invalid_declaration d.effective_mtu mtu (omega arith)) (
          Reads-bind _ (Reads-count 1 max_routes (length d.routes) r1 r2 (omega arith)) (
            Reads-bind _ (Reads-many d.routes Reads-route t.routes) (
              Reads-bind _ (Reads-count 1 max_exclusions (length d.exclusions) e1 e2 (omega arith))
                (Reads-bind _ (Reads-many d.exclusions Reads-exclusion t.exclusions)
                  (Reads-last _ (Reads-firewall d.firewall) (Reads-pure d))))))))

-- A valid declaration is read back.
pub Reads-declaration :
    (d : PrepareDeclaration)
    → IsTyped d
    → validate_declaration d ≡ ok tt
    → Reads decode_declaration (encode_declaration d) d
unfolding decode_declaration
Reads-declaration d t v =
    Reads-last _ (Reads-fields d t (valid_bounds d v))
      (Reads-step _ (Reads-lift tt v) (Reads-pure d))
