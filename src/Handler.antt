-- ===== src/Handler.antt =====
-- The decisions of the HTTP handler (src/proxy/handler/policy.rs, and of src/proxy/handler/attempt.rs and
-- src/proxy/handler/attempt/respond.rs what is kept of a response). Header maps are a parameter.
pub mod Vary
pub mod Outcome
pub mod Headers
mod Tests
use reduction.Prelude.{
  ℕ, zero, suc, ◌+◌, ◌-◌, ◌*◌, ◌/◌, ◌%◌, ◌^◌, ◌≤◌, ◌<◌, min, max, ◌≡◌, refl, sym, ap, ap₂, ◌∙◌,
  subst, fun_ext, ◌≢◌, ◌↔◌, ◌⊎◌, inl, inr, ite, if_pos, if_neg, Bool, true, false, not, ◌&&◌, ◌||◌,
  Option, none, some, List, [], ◌∷◌, ◌++◌, map, append-nil, append_assoc, arith, ltb, leb, ◌==◌,
  if◌then◌else◌, tests, Bool-cases, Option-cases, is_some, is_none, unwrap_or, length, get_elem?,
  take, drop, any, all, retain, length-append, All, All-append, take-length_append,
  drop-length_append, Text, codes, text_eq, text_eq→eq, text_eq_refl, text_eq_iff, text_dec,
  starts_with, ends_with, eq_ignore_ascii_case, to_ascii_lowercase, dec_lt, dec_le, ℕ_discrete,
  length-retain-le, All-retain, retain-All,
}
use reduction.Prelude.Parsing.{split_on, trim}
use reduction.Http.{HeaderOps, get, contains_key}
use reduction.CacheControl.{CacheDirectives}
use reduction.Circuit.{Limits, Breaker, failure_breaker, success_breaker}

-- `str::to_ascii_lowercase`.
abbrev pub lowercase : Text → Text
lowercase s = map to_ascii_lowercase s

-- Statuses are their codes.
unfoldable pub is_cacheable_status : ℕ → Bool
is_cacheable_status status = status == 200

abbrev pub is_covered : Text → Bool
is_covered token =
    let name = lowercase (trim token) in
    text_eq name (codes "accept-encoding")
    || text_eq name (codes "x-reduction-client-id")
    || text_eq name (codes "x-reduction-client-spki")

unfoldable pub response_permits_shared_caching : Bool → CacheDirectives → Bool
response_permits_shared_caching request_has_cookie directives =
    not request_has_cookie && directives.is_public

abbrev pub is_retryable_status : ℕ → Bool
is_retryable_status status = status == 502 || status == 503 || status == 429

abbrev pub is_server_error : ℕ → Bool
is_server_error status = leb 500 status && ltb status 600

abbrev pub is_idempotent_method : Text → Bool
is_idempotent_method method =
    text_eq method (codes "GET")
    || text_eq method (codes "HEAD")
    || text_eq method (codes "OPTIONS")
    || text_eq method (codes "TRACE")
    || text_eq method (codes "PUT")
    || text_eq method (codes "DELETE")

abbrev pub not_empty : Text → Bool
not_empty [] = false
not_empty (c ∷ s) = true

-- `to_str` is `HeaderValue::to_str`.
module _ (h : HeaderOps) (to_str : Text → Option Text) where
  unfoldable pub response_is_encoded : h.HeaderMap → Bool
  response_is_encoded headers = contains_key h (codes "content-encoding") headers

  abbrev pub vary_value : Option Text → Option Text
  vary_value none = none
  vary_value (some v) = to_str v

  unfoldable pub vary_permits_caching : h.HeaderMap → Bool
  vary_permits_caching headers = elim (vary_value (get h (codes "vary") headers)) [
    | none ↦ true
    | some vary ↦ all is_covered (split_on b',' vary)
  ]

  unfoldable pub retries_permitted : Text → h.HeaderMap → Bool
  retries_permitted method headers =
      is_idempotent_method method || elim (get h (codes "idempotency-key") headers) [
        | none ↦ false
        | some value ↦ not_empty value
      ]

  -- `should_cache_response`, of the flags of its context.
  unfoldable pub should_cache_response :
      (enabled is_cacheable_method request_has_cookie : Bool)
      → h.HeaderMap
      → ℕ
      → CacheDirectives
      → Bool
  should_cache_response enabled is_cacheable_method request_has_cookie headers status directives =
      enabled
      && is_cacheable_method
      && is_cacheable_status status
      && not (response_is_encoded headers)
      && vary_permits_caching headers
      && response_permits_shared_caching request_has_cookie directives

-- What `handle_response` records of a backend's response on the breaker of the backend, and whether it
-- goes on to another attempt.
unfoldable pub handle_response :
    Limits → ℕ → (attempt max_attempts status : ℕ) → Breaker → Breaker × Bool
handle_response l now attempt max_attempts status b =
    let failed : Breaker = if is_retryable_status status then failure_breaker l now b else b in
    if is_retryable_status status && ltb (attempt + 1) max_attempts
    then (failed, true)
    else if is_server_error status
    then (failure_breaker l now failed, false)
    else (success_breaker failed, false)
