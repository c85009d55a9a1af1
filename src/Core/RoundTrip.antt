-- ===== src/Core/RoundTrip.antt =====
-- Stored codes are read back as what was stored.
use symbiotic_foundation.Base.{◌≡◌, refl, some}
use symbiotic_foundation.Core.Diagnostics.{
  DiagnosticCode, FailureClass, diagnostic_code, diagnostic_parse, class_code, class_parse,
  a_classify_request_needs_at_least_one_question, adapter_bounds_differ_from_configured_binding,
  adapter_capabilities_differ_from_configured_model, binding_differs_from_configured_identity_model,
  binding_overrides_configured_account_policy,
  binding_requires_an_explicit_execution_policy_or_configured_registry,
  classification_questions_cannot_be_encoded, configured_credential_mode_is_unsupported_or_empty,
  credential_bearing_provider_response_refused, credential_result_boundary_is_unavailable,
  effective_transport_differs_from_configured_binding,
  finite_nonzero_request_response_byte_limits_are_required,
  gemini_batch_response_missing_embeddings, gemini_embedding_contains_non_finite_components,
  gemini_request_dimensions_differ_from_configured_binding,
  openai_compatible_response_had_no_choices, terminal_queue_item_is_missing_its_error_class,
  unsupported_chat_settings_reasoning_effort_requires_thinking_and_must_be_nonempty,
  account_sharing_key_is_empty, invocation_completed, attempt_budget_exhausted,
  authentication_rejected, binding_identity_is_required, cache_failure, cache_path_refused,
  chat_output_limit_required, embedding_dimensions_must_be_nonzero, embedding_dimensions_required,
  finite_output_tokens_are_required, finite_timeout_is_required,
  gemini_embedding_dimension_mismatch, gemini_response_missing_embedding,
  gemini_task_option_is_unsupported, http_budget_exhausted, http_failure, http_rate_limited,
  http_timeout, http_unavailable, invalid_adapter_response, invalid_configuration,
  invalid_credential_encoding, invalid_http_client_configuration, invalid_provider_response,
  invalid_response, lease_expired, memory_queue_lock_poisoned, model_admission_lock_poisoned,
  model_registry_is_not_configured, output_token_limit_exceeded, output_token_limit_must_be_nonzero,
  provider_failure, provider_redirect_refused, provider_request_limit_exceeded,
  provider_response_is_not_valid_utf8, provider_response_limit_exceeded,
  provider_response_read_failed, queue_result_too_large, queue_failure,
  queue_item_kind_must_not_be_empty, rate_bucket_disappeared, rate_bucket_lock_poisoned,
  rate_gate_lock_poisoned, runtime_policy_lock_poisoned, sqlite_queue_lock_poisoned,
  stale_queue_item, storage_failure, spend_receipt_ref_too_long, spend_ledger_unavailable,
  spend_reconciliation_required, spend_budget_exhausted, system_one_needs_a_bearer_api_key,
  unsupported_queue_schema, worker_id_must_not_be_empty, unavailable, auth, rate_limited,
  budget_exhausted, timeout, invalid_request, provider, queue, cache, unsupported_chat,
  unsupported_embedding, unsupported_rerank, unsupported_classify, unsupported_vision,
  unsupported_image_generation, unsupported_video_generation, unsupported_agent_task,
}

-- The code stored for every diagnostic parses back to it.
pub diagnostic_parse-code : (c : DiagnosticCode) → diagnostic_parse (diagnostic_code c) ≡ some c
unfolding diagnostic_code diagnostic_parse
diagnostic_parse-code a_classify_request_needs_at_least_one_question = refl
diagnostic_parse-code adapter_bounds_differ_from_configured_binding = refl
diagnostic_parse-code adapter_capabilities_differ_from_configured_model = refl
diagnostic_parse-code binding_differs_from_configured_identity_model = refl
diagnostic_parse-code binding_overrides_configured_account_policy = refl
diagnostic_parse-code binding_requires_an_explicit_execution_policy_or_configured_registry = refl
diagnostic_parse-code classification_questions_cannot_be_encoded = refl
diagnostic_parse-code configured_credential_mode_is_unsupported_or_empty = refl
diagnostic_parse-code credential_bearing_provider_response_refused = refl
diagnostic_parse-code credential_result_boundary_is_unavailable = refl
diagnostic_parse-code effective_transport_differs_from_configured_binding = refl
diagnostic_parse-code finite_nonzero_request_response_byte_limits_are_required = refl
diagnostic_parse-code gemini_batch_response_missing_embeddings = refl
diagnostic_parse-code gemini_embedding_contains_non_finite_components = refl
diagnostic_parse-code gemini_request_dimensions_differ_from_configured_binding = refl
diagnostic_parse-code openai_compatible_response_had_no_choices = refl
diagnostic_parse-code terminal_queue_item_is_missing_its_error_class = refl
diagnostic_parse-code
      unsupported_chat_settings_reasoning_effort_requires_thinking_and_must_be_nonempty =
    refl
diagnostic_parse-code account_sharing_key_is_empty = refl
diagnostic_parse-code invocation_completed = refl
diagnostic_parse-code attempt_budget_exhausted = refl
diagnostic_parse-code authentication_rejected = refl
diagnostic_parse-code binding_identity_is_required = refl
diagnostic_parse-code cache_failure = refl
diagnostic_parse-code cache_path_refused = refl
diagnostic_parse-code chat_output_limit_required = refl
diagnostic_parse-code embedding_dimensions_must_be_nonzero = refl
diagnostic_parse-code embedding_dimensions_required = refl
diagnostic_parse-code finite_output_tokens_are_required = refl
diagnostic_parse-code finite_timeout_is_required = refl
diagnostic_parse-code gemini_embedding_dimension_mismatch = refl
diagnostic_parse-code gemini_response_missing_embedding = refl
diagnostic_parse-code gemini_task_option_is_unsupported = refl
diagnostic_parse-code http_budget_exhausted = refl
diagnostic_parse-code http_failure = refl
diagnostic_parse-code http_rate_limited = refl
diagnostic_parse-code http_timeout = refl
diagnostic_parse-code http_unavailable = refl
diagnostic_parse-code invalid_adapter_response = refl
diagnostic_parse-code invalid_configuration = refl
diagnostic_parse-code invalid_credential_encoding = refl
diagnostic_parse-code invalid_http_client_configuration = refl
diagnostic_parse-code invalid_provider_response = refl
diagnostic_parse-code invalid_response = refl
diagnostic_parse-code lease_expired = refl
diagnostic_parse-code memory_queue_lock_poisoned = refl
diagnostic_parse-code model_admission_lock_poisoned = refl
diagnostic_parse-code model_registry_is_not_configured = refl
diagnostic_parse-code output_token_limit_exceeded = refl
diagnostic_parse-code output_token_limit_must_be_nonzero = refl
diagnostic_parse-code provider_failure = refl
diagnostic_parse-code provider_redirect_refused = refl
diagnostic_parse-code provider_request_limit_exceeded = refl
diagnostic_parse-code provider_response_is_not_valid_utf8 = refl
diagnostic_parse-code provider_response_limit_exceeded = refl
diagnostic_parse-code provider_response_read_failed = refl
diagnostic_parse-code queue_result_too_large = refl
diagnostic_parse-code queue_failure = refl
diagnostic_parse-code queue_item_kind_must_not_be_empty = refl
diagnostic_parse-code rate_bucket_disappeared = refl
diagnostic_parse-code rate_bucket_lock_poisoned = refl
diagnostic_parse-code rate_gate_lock_poisoned = refl
diagnostic_parse-code runtime_policy_lock_poisoned = refl
diagnostic_parse-code sqlite_queue_lock_poisoned = refl
diagnostic_parse-code stale_queue_item = refl
diagnostic_parse-code storage_failure = refl
diagnostic_parse-code spend_receipt_ref_too_long = refl
diagnostic_parse-code spend_ledger_unavailable = refl
diagnostic_parse-code spend_reconciliation_required = refl
diagnostic_parse-code spend_budget_exhausted = refl
diagnostic_parse-code system_one_needs_a_bearer_api_key = refl
diagnostic_parse-code unsupported_queue_schema = refl
diagnostic_parse-code worker_id_must_not_be_empty = refl

class_parse-code : (c : FailureClass) → class_parse (class_code c) ≡ some c
unfolding class_code class_parse
class_parse-code unavailable = refl
class_parse-code auth = refl
class_parse-code rate_limited = refl
class_parse-code budget_exhausted = refl
class_parse-code timeout = refl
class_parse-code invalid_request = refl
class_parse-code provider = refl
class_parse-code queue = refl
class_parse-code cache = refl
class_parse-code unsupported_chat = refl
class_parse-code unsupported_embedding = refl
class_parse-code unsupported_rerank = refl
class_parse-code unsupported_classify = refl
class_parse-code unsupported_vision = refl
class_parse-code unsupported_image_generation = refl
class_parse-code unsupported_video_generation = refl
class_parse-code unsupported_agent_task = refl

-- The text stored for every diagnostic code, and the one stored for every failure class, parse back
-- to them.
pub codes_parse_back :
    (d : DiagnosticCode) (c : FailureClass)
    → (diagnostic_parse (diagnostic_code d) ≡ some d) × (class_parse (class_code c) ≡ some c)
codes_parse_back d c = (diagnostic_parse-code d, class_parse-code c)
