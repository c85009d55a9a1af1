-- ===== src/Spend/Types.antt =====
-- The vocabulary of crates/symbiotic-model/src/spend.rs, and the usage record of
-- crates/symbiotic-trace/src/lib.rs. `J` is a JSON value.
use symbiotic_foundation.Base.{
  ℕ, String, Bool, true, false, ◌&&◌, ◌||◌, Option, ltb, ◌==◌, nat_eq, string_eq, codes, byte_count,
  if◌then◌else◌, is_some,
}
use symbiotic_foundation.Base.Int.{ℤ, int_eq}
use symbiotic_foundation.Base.Maybe.{option_eq}
use symbiotic_foundation.Core.Diagnostics.{spend_receipt_ref_too_long}
use symbiotic_foundation.Model.Errors.{invalid_request}
use symbiotic_foundation.Spend.Result.{Result, ok, err}

-- `SpendReceiptRef::MAX_BYTES`
abbrev pub max_bytes : ℕ
max_bytes = 256

-- A `SpendReceiptRef` is the text that `SpendReceiptRef::new` accepts.
unfoldable pub new_ref : String → Result String
new_ref value =
    if ltb max_bytes (byte_count (codes value))
    then err (invalid_request spend_receipt_ref_too_long)
    else ok value

pub data SpendState : Type 0 where
  unknown released settled : SpendState

abbrev pub same_state : SpendState → SpendState → Bool
same_state unknown unknown = true
same_state released released = true
same_state settled settled = true
same_state _ _ = false

pub record SpendReservation : Type 0 where
  pub reference : String
  pub account : String
  pub invocation : String
  pub binding : String
  pub request_limit : Option ℕ

-- The derived `PartialEq`.
abbrev pub same_reservation : SpendReservation → SpendReservation → Bool
same_reservation r s =
    r.reference == s.reference
    && r.account == s.account
    && r.invocation == s.invocation
    && r.binding == s.binding
    && r.request_limit == s.request_limit

pub record AcceptedSpendHandoff : Type 0 where
  pub reservation : SpendReservation
  pub input_identity : String

pub record UsageTrace : Type 0 where
  pub cache_hit_tokens : Option ℕ
  pub cache_miss_tokens : Option ℕ
  pub response_id : Option String
  pub served_model : Option String
  pub created : Option ℤ
  pub input_tokens : Option ℕ
  pub output_tokens : Option ℕ
  pub reasoning_tokens : Option ℕ
  pub media_units : Option ℕ
  pub cost_micro_usd : Option ℕ
  pub reported_cost_usd : Option String

unfoldable pub has_measured_usage : UsageTrace → Bool
has_measured_usage u =
    is_some u.cache_hit_tokens
    || is_some u.cache_miss_tokens
    || is_some u.input_tokens
    || is_some u.output_tokens
    || is_some u.reasoning_tokens
    || is_some u.media_units
    || is_some u.cost_micro_usd
    || is_some u.reported_cost_usd

-- Whether two records are written as the same JSON text, field by field.
unfoldable pub same_usage : UsageTrace → UsageTrace → Bool
same_usage u v =
    u.cache_hit_tokens == v.cache_hit_tokens
    && u.cache_miss_tokens == v.cache_miss_tokens
    && u.response_id == v.response_id
    && u.served_model == v.served_model
    && u.created == v.created
    && u.input_tokens == v.input_tokens
    && u.output_tokens == v.output_tokens
    && u.reasoning_tokens == v.reasoning_tokens
    && u.media_units == v.media_units
    && u.cost_micro_usd == v.cost_micro_usd
    && u.reported_cost_usd == v.reported_cost_usd

pub record SpendReceipt (J : Type 0) : Type 0 where
  pub reservation : SpendReservation
  pub state : SpendState
  pub pre_dispatch_released : Bool
  pub usage : Option UsageTrace
  pub output : Option J
  pub attempt_limit : Option ℕ
  pub attempts_used : ℕ
  pub recovery : Option J
