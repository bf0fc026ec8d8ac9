-- ===== src/Proto/V2/Validate.antt =====
-- `Request::validate` of linux/common/crates/candy-netd-proto/src/v2.rs.
use candy_runtime.Prelude.{
  ℕ, Bool, true, false, not, ◌&&◌, ◌||◌, List, [], ◌∷◌, ◌++◌, map, Result, ok, err, refuse_if, ltb,
  leb, ◌==◌, same, length, all,
}
use candy_runtime.Prelude.Results.{◌>>◌}
use candy_runtime.Proto.Error.{
  NetdProtocolError, invalid_request, invalid_owner, invalid_declaration,
}
use candy_runtime.Proto.Prefix.{Ipv4Prefix, Bytes-discrete, new_prefix, mem_prefix}
use candy_runtime.Proto.Declaration.{
  PrepareDeclaration, validate_declaration, max_routes, head_octet,
}
use candy_runtime.Proto.Request.{zero_instance, is_valid_mtu}
use candy_runtime.Proto.V2.{
  InfraSpec, ForwardOwner, ForwardAuthority, ForwardAuthorityReceipt, Operation, Request,
}

abbrev pub ⊤ : Type 0
⊤ = Unit

abbrev pub Validity : Type 0
Validity = Result NetdProtocolError ⊤

-- `[0; 16]` and `[0; 4]`
abbrev pub is_zero_id : List ℕ → Bool
is_zero_id id = same Bytes-discrete id zero_instance

abbrev pub is_zero_address : List ℕ → Bool
is_zero_address address = same Bytes-discrete address (0 ∷ 0 ∷ 0 ∷ 0 ∷ [])

unfoldable pub validate_spec : InfraSpec → Validity
validate_spec s =
    refuse_if
      (is_zero_id s.infra_id
        || (s.generation == 0)
        || (s.netns_inode == 0)
        || not (is_valid_mtu s.mtu)
        || is_zero_address s.overlay_router_ipv4
        || leb 224 (head_octet s.overlay_router_ipv4))
      invalid_declaration

-- `b.is_ascii_digit() || (b'a'..=b'f').contains(&b)`
abbrev pub is_hex_digit : ℕ → Bool
is_hex_digit b = (leb 48 b && leb b 57) || (leb 97 b && leb b 102)

unfoldable pub is_hex : List ℕ → ℕ → Bool
is_hex text len = (length text == len) && all is_hex_digit text

unfoldable pub validate_authority : ForwardAuthority → Validity
validate_authority a =
    refuse_if
      (not (is_hex a.transaction_id 32)
        || (a.authority_revision == 0)
        || not (is_hex a.signed_control_hash 64)
        || not (is_hex a.declaration_hash 64)
        || not (is_hex a.snapshot_closure_hash 64)
        || (a.io_epoch == 0)
        || (a.io_pid == 0)
        || (a.io_start_ticks == 0)
        || (a.candidate_pid == 0)
        || (a.candidate_start_ticks == 0))
      invalid_owner

unfoldable pub validate_owner : ForwardOwner → Validity
validate_owner o =
    refuse_if
      (is_zero_id o.domain_id
        || (o.signed_generation == 0)
        || (o.worker_epoch == 0)
        || (o.fencing_token == 0)
        || (o.auth_deadline_mono_ms == 0)
        || (o.lease_deadline_mono_ms == 0)
        || ltb o.auth_deadline_mono_ms o.lease_deadline_mono_ms)
      invalid_owner

abbrev pub made : Result NetdProtocolError Ipv4Prefix → Validity
made (ok p) = ok tt
made (err e) = err e

-- `Ipv4Prefix::new(…)?` on each
abbrev pub validate_prefixes : List Ipv4Prefix → Validity
validate_prefixes [] = ok tt
validate_prefixes (p ∷ ps) =
    let rest = validate_prefixes ps in made (new_prefix p.network p.prefix_len) >> rest

-- The same, where no prefix may stand twice; `seen` is the hash set.
abbrev pub validate_unique : List Ipv4Prefix → List Ipv4Prefix → Validity
validate_unique seen [] = ok tt
validate_unique seen (p ∷ ps) =
    let rest = validate_unique (p ∷ seen) ps in
    made (new_prefix p.network p.prefix_len)
    >> (refuse_if (mem_prefix seen p) invalid_declaration >> rest)

unfoldable pub validate_routed : PrepareDeclaration → Validity
validate_routed d =
    validate_declaration d
    >> validate_prefixes (map (λ r. r.prefix) d.routes ++ map (λ e. e.prefix) d.exclusions)

abbrev pub is_in_domain : Operation → Bool
is_in_domain (Operation.in_domain d i op) = true
is_in_domain _ = false

abbrev pub validate_receipt : ForwardOwner → ForwardAuthorityReceipt → Validity
validate_receipt o r =
    validate_owner o
    >> (validate_authority r.authority
        >> refuse_if
            (not r.owner_active
              || not (r.authorization_deadline_mono_ms == o.auth_deadline_mono_ms)
              || (r.packet_proof_reported_mono_ms == 0))
            invalid_owner)

-- The operation inside a domain is validated as a request of the same caller.
unfoldable pub validate_operation : Operation → Validity
validate_operation (Operation.in_domain domain infra op) =
    let scoped = validate_operation op in
    refuse_if (is_zero_id domain || is_zero_id infra || is_in_domain op) invalid_request >> scoped
validate_operation (Operation.infra_ensure spec) = validate_spec spec
validate_operation (Operation.infra_acquire_io_fd infra generation epoch) =
    refuse_if (is_zero_id infra || (generation == 0) || (epoch == 0)) invalid_request
validate_operation (Operation.infra_release_io infra generation epoch) =
    refuse_if (is_zero_id infra || (generation == 0) || (epoch == 0)) invalid_request
validate_operation (Operation.infra_retire infra generation) =
    refuse_if (is_zero_id infra || (generation == 0)) invalid_request
validate_operation (Operation.forward_prepare infra generation owner d) =
    refuse_if (is_zero_id infra || (generation == 0)) invalid_request
    >> (validate_owner owner >> validate_routed d)
validate_operation (Operation.forward_policy_update owner revision generation hash d) =
    validate_owner owner
    >> (refuse_if ((revision == 0) || (generation == 0) || not (is_hex hash 64)) invalid_declaration
        >> validate_routed d)
validate_operation (Operation.forward_commit owner) = validate_owner owner
validate_operation (Operation.forward_revoke owner) = validate_owner owner
validate_operation (Operation.forward_guard owner) = validate_owner owner
validate_operation (Operation.forward_lease_renew owner) = validate_owner owner
validate_operation (Operation.forward_authorize owner authority) =
    validate_owner owner >> validate_authority authority
validate_operation (Operation.forward_commit_authorized owner receipt) =
    validate_receipt owner receipt
validate_operation (Operation.forward_failed_prefixes owner revision failed) =
    validate_owner owner
    >> (refuse_if ((revision == 0) || ltb max_routes (length failed)) invalid_declaration
        >> validate_unique [] failed)
validate_operation _ = ok tt

unfoldable pub validate_request : Request → Validity
validate_request r =
    refuse_if ((r.request_id == 0) || is_zero_id r.caller_instance_id || (r.caller_pid == 0))
      invalid_request
    >> validate_operation r.operation
