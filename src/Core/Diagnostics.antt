-- ===== src/Core/Diagnostics.antt =====
-- crates/symbiotic-core/src/diagnostics.rs: the closed vocabulary of diagnostics and failure
-- classes, with the stable code that durable records store and its parser.
use symbiotic_foundation.Base.{String, Option, none, some, ◌==◌, string_eq, if◌then◌else◌}

pub data DiagnosticCode : Type 0 where
  a_classify_request_needs_at_least_one_question adapter_bounds_differ_from_configured_binding :
      DiagnosticCode
  adapter_capabilities_differ_from_configured_model : DiagnosticCode
  binding_differs_from_configured_identity_model binding_overrides_configured_account_policy :
      DiagnosticCode
  binding_requires_an_explicit_execution_policy_or_configured_registry : DiagnosticCode
  classification_questions_cannot_be_encoded : DiagnosticCode
  configured_credential_mode_is_unsupported_or_empty : DiagnosticCode
  credential_bearing_provider_response_refused credential_result_boundary_is_unavailable :
      DiagnosticCode
  effective_transport_differs_from_configured_binding : DiagnosticCode
  finite_nonzero_request_response_byte_limits_are_required : DiagnosticCode
  gemini_batch_response_missing_embeddings gemini_embedding_contains_non_finite_components :
      DiagnosticCode
  gemini_request_dimensions_differ_from_configured_binding : DiagnosticCode
  openai_compatible_response_had_no_choices terminal_queue_item_is_missing_its_error_class :
      DiagnosticCode
  unsupported_chat_settings_reasoning_effort_requires_thinking_and_must_be_nonempty : DiagnosticCode
  account_sharing_key_is_empty invocation_completed attempt_budget_exhausted : DiagnosticCode
  authentication_rejected binding_identity_is_required cache_failure cache_path_refused :
      DiagnosticCode
  chat_output_limit_required embedding_dimensions_must_be_nonzero : DiagnosticCode
  embedding_dimensions_required finite_output_tokens_are_required finite_timeout_is_required :
      DiagnosticCode
  gemini_embedding_dimension_mismatch gemini_response_missing_embedding : DiagnosticCode
  gemini_task_option_is_unsupported http_budget_exhausted http_failure http_rate_limited :
      DiagnosticCode
  http_timeout http_unavailable invalid_adapter_response invalid_configuration : DiagnosticCode
  invalid_credential_encoding invalid_http_client_configuration invalid_provider_response :
      DiagnosticCode
  invalid_response lease_expired memory_queue_lock_poisoned model_admission_lock_poisoned :
      DiagnosticCode
  model_registry_is_not_configured output_token_limit_exceeded : DiagnosticCode
  output_token_limit_must_be_nonzero provider_failure provider_redirect_refused : DiagnosticCode
  provider_request_limit_exceeded provider_response_is_not_valid_utf8 : DiagnosticCode
  provider_response_limit_exceeded provider_response_read_failed queue_result_too_large :
      DiagnosticCode
  queue_failure queue_item_kind_must_not_be_empty rate_bucket_disappeared : DiagnosticCode
  rate_bucket_lock_poisoned rate_gate_lock_poisoned runtime_policy_lock_poisoned : DiagnosticCode
  sqlite_queue_lock_poisoned stale_queue_item storage_failure spend_receipt_ref_too_long :
      DiagnosticCode
  spend_ledger_unavailable spend_reconciliation_required spend_budget_exhausted : DiagnosticCode
  system_one_needs_a_bearer_api_key unsupported_queue_schema worker_id_must_not_be_empty :
      DiagnosticCode

unfoldable pub diagnostic_code : DiagnosticCode → String
diagnostic_code a_classify_request_needs_at_least_one_question =
    "a_classify_request_needs_at_least_one_question"
diagnostic_code adapter_bounds_differ_from_configured_binding =
    "adapter_bounds_differ_from_configured_binding"
diagnostic_code adapter_capabilities_differ_from_configured_model =
    "adapter_capabilities_differ_from_configured_model"
diagnostic_code binding_differs_from_configured_identity_model =
    "binding_differs_from_configured_identity_model"
diagnostic_code binding_overrides_configured_account_policy =
    "binding_overrides_configured_account_policy"
diagnostic_code binding_requires_an_explicit_execution_policy_or_configured_registry =
    "binding_requires_an_explicit_execution_policy_or_configured_registry"
diagnostic_code classification_questions_cannot_be_encoded =
    "classification_questions_cannot_be_encoded"
diagnostic_code configured_credential_mode_is_unsupported_or_empty =
    "configured_credential_mode_is_unsupported_or_empty"
diagnostic_code credential_bearing_provider_response_refused =
    "credential_bearing_provider_response_refused"
diagnostic_code credential_result_boundary_is_unavailable =
    "credential_result_boundary_is_unavailable"
diagnostic_code effective_transport_differs_from_configured_binding =
    "effective_transport_differs_from_configured_binding"
diagnostic_code finite_nonzero_request_response_byte_limits_are_required =
    "finite_nonzero_request_response_byte_limits_are_required"
diagnostic_code gemini_batch_response_missing_embeddings =
    "gemini_batch_response_missing_embeddings"
diagnostic_code gemini_embedding_contains_non_finite_components =
    "gemini_embedding_contains_non_finite_components"
diagnostic_code gemini_request_dimensions_differ_from_configured_binding =
    "gemini_request_dimensions_differ_from_configured_binding"
diagnostic_code openai_compatible_response_had_no_choices =
    "openai_compatible_response_had_no_choices"
diagnostic_code terminal_queue_item_is_missing_its_error_class =
    "terminal_queue_item_is_missing_its_error_class"
diagnostic_code unsupported_chat_settings_reasoning_effort_requires_thinking_and_must_be_nonempty =
    "unsupported_chat_settings_reasoning_effort_requires_thinking_and_must_be_nonempty"
diagnostic_code account_sharing_key_is_empty = "account_sharing_key_is_empty"
diagnostic_code invocation_completed = "invocation_completed"
diagnostic_code attempt_budget_exhausted = "attempt_budget_exhausted"
diagnostic_code authentication_rejected = "authentication_rejected"
diagnostic_code binding_identity_is_required = "binding_identity_is_required"
diagnostic_code cache_failure = "cache_failure"
diagnostic_code cache_path_refused = "cache_path_refused"
diagnostic_code chat_output_limit_required = "chat_output_limit_required"
diagnostic_code embedding_dimensions_must_be_nonzero = "embedding_dimensions_must_be_nonzero"
diagnostic_code embedding_dimensions_required = "embedding_dimensions_required"
diagnostic_code finite_output_tokens_are_required = "finite_output_tokens_are_required"
diagnostic_code finite_timeout_is_required = "finite_timeout_is_required"
diagnostic_code gemini_embedding_dimension_mismatch = "gemini_embedding_dimension_mismatch"
diagnostic_code gemini_response_missing_embedding = "gemini_response_missing_embedding"
diagnostic_code gemini_task_option_is_unsupported = "gemini_task_option_is_unsupported"
diagnostic_code http_budget_exhausted = "http_budget_exhausted"
diagnostic_code http_failure = "http_failure"
diagnostic_code http_rate_limited = "http_rate_limited"
diagnostic_code http_timeout = "http_timeout"
diagnostic_code http_unavailable = "http_unavailable"
diagnostic_code invalid_adapter_response = "invalid_adapter_response"
diagnostic_code invalid_configuration = "invalid_configuration"
diagnostic_code invalid_credential_encoding = "invalid_credential_encoding"
diagnostic_code invalid_http_client_configuration = "invalid_http_client_configuration"
diagnostic_code invalid_provider_response = "invalid_provider_response"
diagnostic_code invalid_response = "invalid_response"
diagnostic_code lease_expired = "lease_expired"
diagnostic_code memory_queue_lock_poisoned = "memory_queue_lock_poisoned"
diagnostic_code model_admission_lock_poisoned = "model_admission_lock_poisoned"
diagnostic_code model_registry_is_not_configured = "model_registry_is_not_configured"
diagnostic_code output_token_limit_exceeded = "output_token_limit_exceeded"
diagnostic_code output_token_limit_must_be_nonzero = "output_token_limit_must_be_nonzero"
diagnostic_code provider_failure = "provider_failure"
diagnostic_code provider_redirect_refused = "provider_redirect_refused"
diagnostic_code provider_request_limit_exceeded = "provider_request_limit_exceeded"
diagnostic_code provider_response_is_not_valid_utf8 = "provider_response_is_not_valid_utf8"
diagnostic_code provider_response_limit_exceeded = "provider_response_limit_exceeded"
diagnostic_code provider_response_read_failed = "provider_response_read_failed"
diagnostic_code queue_result_too_large = "queue_result_too_large"
diagnostic_code queue_failure = "queue_failure"
diagnostic_code queue_item_kind_must_not_be_empty = "queue_item_kind_must_not_be_empty"
diagnostic_code rate_bucket_disappeared = "rate_bucket_disappeared"
diagnostic_code rate_bucket_lock_poisoned = "rate_bucket_lock_poisoned"
diagnostic_code rate_gate_lock_poisoned = "rate_gate_lock_poisoned"
diagnostic_code runtime_policy_lock_poisoned = "runtime_policy_lock_poisoned"
diagnostic_code sqlite_queue_lock_poisoned = "sqlite_queue_lock_poisoned"
diagnostic_code stale_queue_item = "stale_queue_item"
diagnostic_code storage_failure = "storage_failure"
diagnostic_code spend_receipt_ref_too_long = "spend_receipt_ref_too_long"
diagnostic_code spend_ledger_unavailable = "spend_ledger_unavailable"
diagnostic_code spend_reconciliation_required = "spend_reconciliation_required"
diagnostic_code spend_budget_exhausted = "spend_budget_exhausted"
diagnostic_code system_one_needs_a_bearer_api_key = "system_one_needs_a_bearer_api_key"
diagnostic_code unsupported_queue_schema = "unsupported_queue_schema"
diagnostic_code worker_id_must_not_be_empty = "worker_id_must_not_be_empty"

unfoldable pub diagnostic_parse : String → Option DiagnosticCode
diagnostic_parse text =
    if text == "a_classify_request_needs_at_least_one_question"
    then some a_classify_request_needs_at_least_one_question
    else if text == "adapter_bounds_differ_from_configured_binding"
    then some adapter_bounds_differ_from_configured_binding
    else if text == "adapter_capabilities_differ_from_configured_model"
    then some adapter_capabilities_differ_from_configured_model
    else if text == "binding_differs_from_configured_identity_model"
    then some binding_differs_from_configured_identity_model
    else if text == "binding_overrides_configured_account_policy"
    then some binding_overrides_configured_account_policy
    else if text == "binding_requires_an_explicit_execution_policy_or_configured_registry"
    then some binding_requires_an_explicit_execution_policy_or_configured_registry
    else if text == "classification_questions_cannot_be_encoded"
    then some classification_questions_cannot_be_encoded
    else if text == "configured_credential_mode_is_unsupported_or_empty"
    then some configured_credential_mode_is_unsupported_or_empty
    else if text == "credential_bearing_provider_response_refused"
    then some credential_bearing_provider_response_refused
    else if text == "credential_result_boundary_is_unavailable"
    then some credential_result_boundary_is_unavailable
    else if text == "effective_transport_differs_from_configured_binding"
    then some effective_transport_differs_from_configured_binding
    else if text == "finite_nonzero_request_response_byte_limits_are_required"
    then some finite_nonzero_request_response_byte_limits_are_required
    else if text == "gemini_batch_response_missing_embeddings"
    then some gemini_batch_response_missing_embeddings
    else if text == "gemini_embedding_contains_non_finite_components"
    then some gemini_embedding_contains_non_finite_components
    else if text == "gemini_request_dimensions_differ_from_configured_binding"
    then some gemini_request_dimensions_differ_from_configured_binding
    else if text == "openai_compatible_response_had_no_choices"
    then some openai_compatible_response_had_no_choices
    else if text == "terminal_queue_item_is_missing_its_error_class"
    then some terminal_queue_item_is_missing_its_error_class
    else if text
        == "unsupported_chat_settings_reasoning_effort_requires_thinking_and_must_be_nonempty"
    then some unsupported_chat_settings_reasoning_effort_requires_thinking_and_must_be_nonempty
    else if text == "account_sharing_key_is_empty"
    then some account_sharing_key_is_empty
    else if text == "invocation_completed"
    then some invocation_completed
    else if text == "attempt_budget_exhausted"
    then some attempt_budget_exhausted
    else if text == "authentication_rejected"
    then some authentication_rejected
    else if text == "binding_identity_is_required"
    then some binding_identity_is_required
    else if text == "cache_failure"
    then some cache_failure
    else if text == "cache_path_refused"
    then some cache_path_refused
    else if text == "chat_output_limit_required"
    then some chat_output_limit_required
    else if text == "embedding_dimensions_must_be_nonzero"
    then some embedding_dimensions_must_be_nonzero
    else if text == "embedding_dimensions_required"
    then some embedding_dimensions_required
    else if text == "finite_output_tokens_are_required"
    then some finite_output_tokens_are_required
    else if text == "finite_timeout_is_required"
    then some finite_timeout_is_required
    else if text == "gemini_embedding_dimension_mismatch"
    then some gemini_embedding_dimension_mismatch
    else if text == "gemini_response_missing_embedding"
    then some gemini_response_missing_embedding
    else if text == "gemini_task_option_is_unsupported"
    then some gemini_task_option_is_unsupported
    else if text == "http_budget_exhausted"
    then some http_budget_exhausted
    else if text == "http_failure"
    then some http_failure
    else if text == "http_rate_limited"
    then some http_rate_limited
    else if text == "http_timeout"
    then some http_timeout
    else if text == "http_unavailable"
    then some http_unavailable
    else if text == "invalid_adapter_response"
    then some invalid_adapter_response
    else if text == "invalid_configuration"
    then some invalid_configuration
    else if text == "invalid_credential_encoding"
    then some invalid_credential_encoding
    else if text == "invalid_http_client_configuration"
    then some invalid_http_client_configuration
    else if text == "invalid_provider_response"
    then some invalid_provider_response
    else if text == "invalid_response"
    then some invalid_response
    else if text == "lease_expired"
    then some lease_expired
    else if text == "memory_queue_lock_poisoned"
    then some memory_queue_lock_poisoned
    else if text == "model_admission_lock_poisoned"
    then some model_admission_lock_poisoned
    else if text == "model_registry_is_not_configured"
    then some model_registry_is_not_configured
    else if text == "output_token_limit_exceeded"
    then some output_token_limit_exceeded
    else if text == "output_token_limit_must_be_nonzero"
    then some output_token_limit_must_be_nonzero
    else if text == "provider_failure"
    then some provider_failure
    else if text == "provider_redirect_refused"
    then some provider_redirect_refused
    else if text == "provider_request_limit_exceeded"
    then some provider_request_limit_exceeded
    else if text == "provider_response_is_not_valid_utf8"
    then some provider_response_is_not_valid_utf8
    else if text == "provider_response_limit_exceeded"
    then some provider_response_limit_exceeded
    else if text == "provider_response_read_failed"
    then some provider_response_read_failed
    else if text == "queue_result_too_large"
    then some queue_result_too_large
    else if text == "queue_failure"
    then some queue_failure
    else if text == "queue_item_kind_must_not_be_empty"
    then some queue_item_kind_must_not_be_empty
    else if text == "rate_bucket_disappeared"
    then some rate_bucket_disappeared
    else if text == "rate_bucket_lock_poisoned"
    then some rate_bucket_lock_poisoned
    else if text == "rate_gate_lock_poisoned"
    then some rate_gate_lock_poisoned
    else if text == "runtime_policy_lock_poisoned"
    then some runtime_policy_lock_poisoned
    else if text == "sqlite_queue_lock_poisoned"
    then some sqlite_queue_lock_poisoned
    else if text == "stale_queue_item"
    then some stale_queue_item
    else if text == "storage_failure"
    then some storage_failure
    else if text == "spend_receipt_ref_too_long"
    then some spend_receipt_ref_too_long
    else if text == "spend_ledger_unavailable"
    then some spend_ledger_unavailable
    else if text == "spend_reconciliation_required"
    then some spend_reconciliation_required
    else if text == "spend_budget_exhausted"
    then some spend_budget_exhausted
    else if text == "system_one_needs_a_bearer_api_key"
    then some system_one_needs_a_bearer_api_key
    else if text == "unsupported_queue_schema"
    then some unsupported_queue_schema
    else if text == "worker_id_must_not_be_empty"
    then some worker_id_must_not_be_empty
    else none

pub data FailureClass : Type 0 where
  unavailable auth rate_limited budget_exhausted timeout invalid_request provider queue cache :
      FailureClass
  unsupported_chat unsupported_embedding unsupported_rerank unsupported_classify : FailureClass
  unsupported_vision unsupported_image_generation unsupported_video_generation : FailureClass
  unsupported_agent_task : FailureClass

unfoldable pub class_code : FailureClass → String
class_code unavailable = "unavailable"
class_code auth = "auth"
class_code rate_limited = "rate_limited"
class_code budget_exhausted = "budget_exhausted"
class_code timeout = "timeout"
class_code invalid_request = "invalid_request"
class_code provider = "provider"
class_code queue = "queue"
class_code cache = "cache"
class_code unsupported_chat = "unsupported_chat"
class_code unsupported_embedding = "unsupported_embedding"
class_code unsupported_rerank = "unsupported_rerank"
class_code unsupported_classify = "unsupported_classify"
class_code unsupported_vision = "unsupported_vision"
class_code unsupported_image_generation = "unsupported_image_generation"
class_code unsupported_video_generation = "unsupported_video_generation"
class_code unsupported_agent_task = "unsupported_agent_task"

unfoldable pub class_parse : String → Option FailureClass
class_parse text =
    if text == "unavailable"
    then some unavailable
    else if text == "auth"
    then some auth
    else if text == "rate_limited"
    then some rate_limited
    else if text == "budget_exhausted"
    then some budget_exhausted
    else if text == "timeout"
    then some timeout
    else if text == "invalid_request"
    then some invalid_request
    else if text == "provider"
    then some provider
    else if text == "queue"
    then some queue
    else if text == "cache"
    then some cache
    else if text == "unsupported_chat"
    then some unsupported_chat
    else if text == "unsupported_embedding"
    then some unsupported_embedding
    else if text == "unsupported_rerank"
    then some unsupported_rerank
    else if text == "unsupported_classify"
    then some unsupported_classify
    else if text == "unsupported_vision"
    then some unsupported_vision
    else if text == "unsupported_image_generation"
    then some unsupported_image_generation
    else if text == "unsupported_video_generation"
    then some unsupported_video_generation
    else if text == "unsupported_agent_task"
    then some unsupported_agent_task
    else none
