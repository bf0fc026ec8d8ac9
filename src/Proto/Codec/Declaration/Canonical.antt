-- ===== src/Proto/Codec/Declaration/Canonical.antt =====
-- A declaration that is accepted is valid, and was written in the one way there is.
use candy_runtime.Prelude.{ℕ, ◌≡◌, refl, ok, arith}
use mathlib.Core.List.{append-nil}
use candy_runtime.Proto.Error.{invalid_declaration}
use candy_runtime.Proto.Declaration.{
  RouteKind, local, UnderlayKind, cloud_api, route_tag, underlay_tag, max_routes, max_exclusions,
  validate_declaration,
}
use candy_runtime.Proto.Codec.Reader.Reads.{IsPrefix}
use candy_runtime.Proto.Codec.Reader.Exact.{
  Exact, Exact-bind, Exact-pure, Exact-IsVarint, Exact-IsFixed, Exact-narrow, Exact-count,
  Exact-boolean, Exact-prefix, Exact-many, Exact-value,
}
use candy_runtime.Proto.Codec.Declaration.{
  route_kind, underlay_kind, encode_route, encode_exclusion, encode_firewall, encode_declaration,
  decode_route, decode_exclusion, decode_firewall, decode_fields, decode_declaration,
}
use candy_runtime.Proto.Codec.Declaration.RoundTrip.{IsTyped}

route_kind-tag : (tag : ℕ) (k : RouteKind) → route_kind tag ≡ ok k → tag ≡ route_tag k
route_kind-tag tag local e = ground arith
route_kind-tag tag _ e = ground arith

underlay_kind-tag : (tag : ℕ) (k : UnderlayKind) → underlay_kind tag ≡ ok k → tag ≡ underlay_tag k
underlay_kind-tag tag cloud_api e = ground arith
underlay_kind-tag tag _ e = ground arith

Exact-route : Exact decode_route (λ r used. (used ≡ encode_route r) × IsPrefix r.prefix)
unfolding decode_route encode_route
Exact-route = Exact-bind Exact-prefix λ prefix used h. Exact-bind Exact-IsVarint λ tag used' h'.
    Exact-bind (Exact-value (route_kind tag)) λ k none_used e.
      Exact-pure _ (rw (h.0, h'.0, e.0, route_kind-tag tag k e.1, append-nil) refl, h.1)

Exact-exclusion : Exact decode_exclusion (λ r used. (used ≡ encode_exclusion r) × IsPrefix r.prefix)
unfolding decode_exclusion encode_exclusion
Exact-exclusion = Exact-bind Exact-prefix λ prefix used h. Exact-bind Exact-IsVarint λ tag used' h'.
    Exact-bind (Exact-value (underlay_kind tag)) λ k none_used e.
      Exact-pure _ (rw (h.0, h'.0, e.0, underlay_kind-tag tag k e.1, append-nil) refl, h.1)

Exact-firewall : Exact decode_firewall (λ f used. used ≡ encode_firewall f)
unfolding decode_firewall encode_firewall
Exact-firewall = Exact-bind Exact-boolean λ a used h. Exact-bind Exact-boolean λ b used' h'.
    Exact-bind Exact-boolean λ c used'' h''.
      Exact-bind Exact-boolean λ d last e. Exact-pure _ (rw (h, h', h'', e, append-nil) refl)

Exact-fields : Exact decode_fields (λ d used. (used ≡ encode_declaration d) × IsTyped d)
unfolding decode_fields encode_declaration
Exact-fields = Exact-bind (Exact-narrow 32 invalid_declaration) λ table u1 h1.
    Exact-bind (Exact-IsFixed _ 4) λ router u2 h2.
      Exact-bind (Exact-narrow 16 invalid_declaration) λ mtu u3 h3.
        Exact-bind (Exact-count 1 max_routes) λ n u4 h4.
          Exact-bind (Exact-many encode_route (λ r. IsPrefix r.prefix) n Exact-route)
            λ routes u5 h5. Exact-bind (Exact-count 1 max_exclusions) λ m u6 h6.
              Exact-bind (Exact-many encode_exclusion (λ e. IsPrefix e.prefix) m Exact-exclusion)
                λ exclusions u7 h7. Exact-bind Exact-firewall λ firewall u8 h8. Exact-pure _ (
                  rw (h1.0, h2.0, h3.0, h4.0, h5.0, h6.0, h7.0, h8, h5.1, h7.1, append-nil) refl,
                  record { router = h2.1; routes = h5.2; exclusions = h7.2 },
                )

-- What is taken for a declaration are the bytes that are written for it, and it is valid.
pub Exact-declaration :
    Exact decode_declaration
      (λ d used. (used ≡ encode_declaration d) × IsTyped d × (validate_declaration d ≡ ok tt))
unfolding decode_declaration
Exact-declaration = Exact-bind Exact-fields λ d used h.
    Exact-bind (Exact-value (validate_declaration d))
      λ valid none_used e. Exact-pure d (rw (h.0, e.0, append-nil) refl, h.1, e.1)
