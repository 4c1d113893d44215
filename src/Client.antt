-- ===== src/Client.antt =====
-- src/client.cpp: what an HTTP status means, the reason that goes to the log, and the request that
-- post makes. libcurl is a parameter: `Curl` says whether a handle could be made and what the
-- transfer answered. A JSON payload appears as the text that dump() gives.
pub mod Requests
mod Tests
use forge_ops_tracker_cpp.Prelude.{
  ℕ, ◌*◌, min, max, Bool, true, false, not, ◌&&◌, ◌++◌, Option, none, some, Bytes, codes, ltb, leb,
  ◌==◌, if◌then◌else◌,
}

pub data DeliveryOutcome : Type 0 where
  delivered rejected failed : DeliveryOutcome

-- A status is never negative: curl writes an HTTP status, and 0 is no response.
unfoldable pub delivery_outcome_for_status : ℕ → DeliveryOutcome
delivery_outcome_for_status status =
    if leb 200 status && ltb status 300
    then delivered
    else if leb 400 status && ltb status 500 && not (status == 408) && not (status == 429)
    then rejected
    else failed

-- The helper `delivered` of the anonymous namespace.
unfoldable pub is_delivered : ℕ → Bool
unfolding delivery_outcome_for_status
is_delivered status = elim (delivery_outcome_for_status status) [ delivered ↦ true | _ ↦ false ]

-- `to_string` is std::to_string on a status.
module _ (to_string : ℕ → Bytes) where
  drop_reason_of : DeliveryOutcome → ℕ → Bytes
  drop_reason_of rejected status =
      codes "rejected by the server (HTTP " ++ to_string status ++ codes ")"
  drop_reason_of _ status =
      if status == 0
      then codes "the server could not be reached"
      else codes "the server answered HTTP " ++ to_string status

  pub delivery_drop_reason : ℕ → Bytes
  unfolding drop_reason_of
  delivery_drop_reason status = drop_reason_of (delivery_outcome_for_status status) status

-- The options that post sets. `timeout` is CURLOPT_TIMEOUT in seconds, where 0 is no limit, and
-- `timeout_ms` is CURLOPT_TIMEOUT_MS, which wins where it is set.
pub record Request : Type 0 where
  pub url : Bytes
  pub authorization : Bytes
  pub content_type : Bytes
  pub body : Bytes
  pub timeout : ℕ
  pub timeout_ms : Option ℕ

-- The result of a transfer, by what post does with it: `none` is a CURLcode other than CURLE_OK.
pub record Curl : Type 0 where
  pub easy_init : Bool
  pub perform : Request → Option ℕ

-- `cap` behind max_time, in milliseconds; max_time may be negative in the source, and is 0 then.
cap : ℕ → ℕ → ℕ
cap timeout_seconds max_time =
    if ltb 0 timeout_seconds then min max_time (timeout_seconds * 1000) else max_time

timeout_ms_of : ℕ → Option ℕ → Option ℕ
unfolding cap
timeout_ms_of timeout_seconds none = none
timeout_ms_of timeout_seconds (some max_time) = some (max 1 (cap timeout_seconds max_time))

-- timeout_seconds is an int in the source; a negative one is not covered.
pub request : Bytes → Bytes → Bytes → ℕ → Option ℕ → Request
unfolding timeout_ms_of
request uri api_key payload timeout_seconds max_time = record {
  url = uri;
  authorization = codes "Authorization: Bearer " ++ api_key;
  content_type = codes "Content-Type: application/json";
  body = payload;
  timeout = timeout_seconds;
  timeout_ms = timeout_ms_of timeout_seconds max_time;
}

-- What post returns and whether it wrote its line to the log.
pub record Response : Type 0 where
  pub status : ℕ
  pub logged : Bool

answer : Option ℕ → Response
answer none = record { status = 0; logged = true }
answer (some code) = record { status = code; logged = false }

send : Curl → Request → Response
unfolding answer
send curl r =
    if curl.easy_init then answer (curl.perform r) else record { status = 0; logged = false }

-- The first two arguments are configuration_.api_key() and the endpoint.
pub post : Curl → Option Bytes → Option Bytes → Bytes → ℕ → Option ℕ → Response
unfolding send
post curl (some api_key) (some uri) payload timeout_seconds max_time =
    send curl (request uri api_key payload timeout_seconds max_time)
post curl _ _ payload timeout_seconds max_time = record { status = 0; logged = false }

-- Client::deliver, and each other member that answers whether a post was delivered.
pub deliver : Curl → Option Bytes → Option Bytes → Bytes → ℕ → Option ℕ → Bool
unfolding is_delivered post
deliver curl api_key uri payload timeout_seconds max_time =
    is_delivered (post curl api_key uri payload timeout_seconds max_time).status
