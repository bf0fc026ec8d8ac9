-- ===== src/Proto/Request.antt =====
-- `LeaseOwner`, `NetdOperation` and `NetdRequest` of
-- linux/common/crates/candy-netd-proto/src/lib.rs, and their validation.
use candy_runtime.Prelude.{
  ℕ, Bool, not, ◌&&◌, ◌||◌, List, [], ◌∷◌, ℕ_discrete, ltb, leb, ◌==◌, same, Result, ok, ◌>>◌,
  refuse_if, any, all_pairs,
}
use candy_runtime.Proto.Error.{
  NetdProtocolError, invalid_declaration, invalid_request, invalid_owner,
}
use candy_runtime.Proto.Prefix.{Ipv4Prefix, Bytes-discrete, prefix_lt}
use candy_runtime.Proto.Declaration.{PrepareDeclaration, validate_declaration}

pub record LeaseOwner : Type 0 where
  pub instance_id : List ℕ
  pub pid : ℕ
  pub generation : ℕ
  pub lease_deadline_mono_ms : ℕ

unfoldable pub LeaseOwner-discrete : Discrete LeaseOwner
LeaseOwner-discrete = hlevel ℕ_discrete

-- `[0; 16]`
abbrev pub zero_instance : List ℕ
zero_instance = 0 ∷ 0 ∷ 0 ∷ 0 ∷ 0 ∷ 0 ∷ 0 ∷ 0 ∷ 0 ∷ 0 ∷ 0 ∷ 0 ∷ 0 ∷ 0 ∷ 0 ∷ 0 ∷ []

unfoldable pub validate_owner : LeaseOwner → Result NetdProtocolError (Unit {0})
validate_owner owner =
    refuse_if
      (same Bytes-discrete owner.instance_id zero_instance
        || (owner.pid == 0)
        || (owner.generation == 0)
        || (owner.lease_deadline_mono_ms == 0))
      invalid_owner

pub data NetdOperation : Type 0 where
  prepare : PrepareDeclaration → NetdOperation
  commit rollback status lease_renew : NetdOperation
  mtu_update : ℕ → NetdOperation
  suspend : NetdOperation
  reconfigure : PrepareDeclaration → NetdOperation
  resume : NetdOperation
  drain : ℕ → NetdOperation
  withdraw_prefixes : List Ipv4Prefix → NetdOperation
  policy_update : PrepareDeclaration → NetdOperation

-- `NetdOperation::tag`
abbrev pub operation_tag : NetdOperation → ℕ
operation_tag (prepare d) = 1
operation_tag commit = 2
operation_tag rollback = 3
operation_tag status = 4
operation_tag lease_renew = 5
operation_tag (mtu_update m) = 6
operation_tag suspend = 7
operation_tag (reconfigure d) = 8
operation_tag resume = 9
operation_tag (drain t) = 10
operation_tag (withdraw_prefixes ps) = 11
operation_tag (policy_update d) = 12

pub record NetdRequest : Type 0 where
  pub request_id : ℕ
  pub owner : LeaseOwner
  pub operation : NetdOperation

abbrev pub is_valid_mtu : ℕ → Bool
is_valid_mtu mtu = leb 576 mtu && leb mtu 1400

-- The part of `NetdRequest::validate` that depends on the operation.
unfoldable pub validate_operation : NetdOperation → Result NetdProtocolError (Unit {0})
validate_operation (prepare d) = validate_declaration d
validate_operation (reconfigure d) = validate_declaration d
validate_operation (policy_update d) = validate_declaration d
validate_operation (mtu_update mtu) = refuse_if (not (is_valid_mtu mtu)) invalid_declaration
validate_operation (withdraw_prefixes ps) =
    refuse_if (not (all_pairs prefix_lt ps) || any (λ p. ltb 32 p.prefix_len) ps) invalid_request
validate_operation _ = ok tt

unfoldable pub validate_request : NetdRequest → Result NetdProtocolError (Unit {0})
validate_request request = do
  refuse_if (request.request_id == 0) invalid_request
  validate_owner request.owner
  validate_operation request.operation
