-- ===== src/Client/Requests.antt =====
-- src/client.cpp: the outcomes of a delivery and the time that a request may take.
use forge_ops_tracker_cpp.Prelude.{
  ℕ, ◌*◌, ◌≤◌, ◌<◌, ◌≡◌, ◌≢◌, ◌↔◌, ◌⊎◌, inl, inr, refl, max, Option-cases, true, Option, none, some,
  Bytes, arith,
}
use forge_ops_tracker_cpp.Client.{
  delivered, rejected, failed, delivery_outcome_for_status, Curl, deliver, request, cap,
}

-- Every status has one of the three outcomes: delivered is exactly 200 to 299, rejected exactly 400
-- to 499 without 408 and 429, and failed is everything else, no response (0) included.
pub outcome_classes :
    (status : ℕ)
    → ((delivery_outcome_for_status status ≡ delivered) ↔ ((200 ≤ status) × (status < 300)))
      × ((delivery_outcome_for_status status ≡ rejected)
          ↔ ((400 ≤ status) × (status < 500) × (status ≢ 408) × (status ≢ 429)))
      × ((delivery_outcome_for_status status ≡ failed) ↔ (
          (status < 200)
          ⊎ ((300 ≤ status) × (status < 400))
          ⊎ (500 ≤ status)
          ⊎ (status ≡ 408)
          ⊎ (status ≡ 429)))
unfolding delivery_outcome_for_status
outcome_classes status = ground arith

-- A payload counts as delivered only if there was an endpoint and a key, curl gave a handle, and the
-- transfer of exactly this request was answered with a status from 200 to 299.
pub deliver_sound :
    (curl : Curl) (api_key uri : Option Bytes) (payload : Bytes) (timeout_seconds : ℕ)
    (max_time : Option ℕ)
    → deliver curl api_key uri payload timeout_seconds max_time ≡ true
    → (key : Bytes) × (url : Bytes) × (status : ℕ) × (api_key ≡ some key)
      × (uri ≡ some url)
      × (curl.easy_init ≡ true)
      × (curl.perform (request url key payload timeout_seconds max_time) ≡ some status)
      × (200 ≤ status)
      × (status < 300)
unfolding deliver
deliver_sound curl (some key) (some url) payload seconds time h =
    elim (Option-cases (curl.perform (request url key payload seconds time))) [
      | inl lost ↦ absurd (ground arith)
      | inr (status, e) ↦
          (key, url, status, refl, refl, ground arith, e, ground arith, ground arith)
    ]
deliver_sound curl none uri payload seconds time h = ground arith
deliver_sound curl (some key) none payload seconds time h = ground arith

-- A request with a time of its own is never allowed more than that time, but for the one
-- millisecond that curl needs, nor more than the configured timeout where there is one.
pub request_time :
    (uri api_key payload : Bytes) (timeout_seconds max_time : ℕ)
    → (ms : ℕ) × ((request uri api_key payload timeout_seconds (some max_time)).timeout_ms
        ≡ some ms)
      × (1 ≤ ms)
      × ((ms ≤ max_time) ⊎ (ms ≡ 1))
      × ((timeout_seconds ≡ 0) ⊎ (ms ≤ timeout_seconds * 1000))
unfolding request
request_time uri key payload seconds time =
    (max 1 (cap seconds time), refl, ground arith, ground arith, ground arith)
