-- ===== src/Proto/Codec/Declaration.antt =====
-- `encode_declaration` and `decode_declaration` of linux/common/crates/candy-netd-proto/src/lib.rs.
pub mod RoundTrip
pub mod Canonical
use candy_runtime.Prelude.{
  ℕ, ◌+◌, ◌^◌, ◌<◌, ◌≤◌, ◌≡◌, refl, ap, ◌∙◌, Bool, true, false, List, [], ◌∷◌, ◌++◌, Result, ok,
  err, ◌==◌, if◌then◌else◌, arith, length, All, ◌>>◌, refuse_if, leb, ltb, is_empty, ◌||◌, not,
}
use mathlib.Core.List.{append_assoc, append-nil}
use candy_runtime.Proto.Error.{NetdProtocolError, unknown_enum, invalid_declaration}
use candy_runtime.Proto.Declaration.{
  RouteKind, local, remote, remote_egress, remote_egress_gateway, UnderlayKind, cloud_api,
  hub_endpoint, management, route_tag, underlay_tag, RouteDeclaration, UnderlayExclusion,
  FirewallPolicy, PrepareDeclaration, max_routes, max_exclusions, validate_declaration,
  out_of_bounds,
}
use candy_runtime.Proto.Codec.Varint.{encode_varint}
use candy_runtime.Proto.Codec.Writer.{encode_each, encode_boolean, encode_prefix}
use candy_runtime.Proto.Codec.Reader
use candy_runtime.Proto.Codec.Reader.{
  Reader, pure, lift, ◌>>=◌, read_varint, read_fixed, read_narrow, read_count, read_boolean,
  read_prefix, read_many,
}
use candy_runtime.Proto.Codec.Reader.Reads.{
  Reads, Reads-bind, Reads-step, Reads-last, Reads-pure, Reads-lift, Reads-varint, Reads-fixed,
  Reads-narrow, Reads-count, Reads-boolean, Reads-prefix, Reads-many, IsPrefix,
}
use candy_runtime.Proto.Codec.Reader.Exact.{
  Exact, Exact-bind, Exact-pure, Exact-lift, Exact-IsVarint, Exact-IsFixed, Exact-narrow,
  Exact-count, Exact-boolean, Exact-prefix, Exact-many, Exact-weaken,
}

-- `RouteKind::try_from` and `UnderlayKind::try_from`
abbrev pub route_kind : ℕ → Result NetdProtocolError RouteKind
route_kind tag =
    if tag == 1
    then ok local
    else if tag == 2
    then ok remote
    else if tag == 3
    then ok remote_egress
    else if tag == 4
    then ok remote_egress_gateway
    else err unknown_enum

abbrev pub underlay_kind : ℕ → Result NetdProtocolError UnderlayKind
underlay_kind tag =
    if tag == 1
    then ok cloud_api
    else if tag == 2
    then ok hub_endpoint
    else if tag == 3
    then ok management
    else err unknown_enum

unfoldable pub encode_route : RouteDeclaration → List ℕ
encode_route route = encode_prefix route.prefix ++ encode_varint (route_tag route.kind)

unfoldable pub encode_exclusion : UnderlayExclusion → List ℕ
encode_exclusion e = encode_prefix e.prefix ++ encode_varint (underlay_tag e.kind)

unfoldable pub encode_firewall : FirewallPolicy → List ℕ
encode_firewall f =
    encode_boolean f.allow_forward
    ++ (encode_boolean f.clamp_tcp_mss
        ++ (encode_boolean f.require_ipv4_forwarding ++ encode_boolean f.manage_rp_filter))

unfoldable pub encode_declaration : PrepareDeclaration → List ℕ
encode_declaration d =
    encode_varint d.table_id
    ++ (d.overlay_router_ipv4
        ++ (encode_varint d.effective_mtu
            ++ (encode_varint (length d.routes)
                ++ (encode_each encode_route d.routes
                    ++ (encode_varint (length d.exclusions)
                        ++ (encode_each encode_exclusion d.exclusions
                            ++ encode_firewall d.firewall))))))

unfoldable pub decode_route : Reader RouteDeclaration
decode_route = do
  prefix ← read_prefix
  tag ← read_varint
  kind ← lift (route_kind tag)
  pure (record { prefix = prefix; kind = kind })

unfoldable pub decode_exclusion : Reader UnderlayExclusion
decode_exclusion = do
  prefix ← read_prefix
  tag ← read_varint
  kind ← lift (underlay_kind tag)
  pure (record { prefix = prefix; kind = kind })

unfoldable pub decode_firewall : Reader FirewallPolicy
decode_firewall = do
  allow_forward ← read_boolean
  clamp_tcp_mss ← read_boolean
  require_ipv4_forwarding ← read_boolean
  manage_rp_filter ← read_boolean
  pure (record {
    allow_forward = allow_forward;
    clamp_tcp_mss = clamp_tcp_mss;
    require_ipv4_forwarding = require_ipv4_forwarding;
    manage_rp_filter = manage_rp_filter;
  })

unfoldable pub decode_fields : Reader PrepareDeclaration
decode_fields = do
  table_id ← read_narrow 32 invalid_declaration
  overlay_router_ipv4 ← read_fixed 4
  effective_mtu ← read_narrow 16 invalid_declaration
  route_count ← read_count 1 max_routes
  routes ← read_many route_count decode_route
  exclusion_count ← read_count 1 max_exclusions
  exclusions ← read_many exclusion_count decode_exclusion
  firewall ← decode_firewall
  pure (record {
    table_id = table_id;
    overlay_router_ipv4 = overlay_router_ipv4;
    effective_mtu = effective_mtu;
    routes = routes;
    exclusions = exclusions;
    firewall = firewall;
  })

unfoldable pub decode_declaration : Reader PrepareDeclaration
decode_declaration = do value ← decode_fields; valid ← lift (validate_declaration value); pure value
