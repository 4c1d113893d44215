-- ===== src/Client/Tests.antt =====
-- Requests of the client at small inputs.
use forge_ops_tracker_cpp.Prelude.{ℕ, ◌*◌, ◌≤◌, ◌<◌, ◌≡◌, ◌⊎◌, refl, true, some, Bytes, codes}
use forge_ops_tracker_cpp.Client.{rejected, delivery_outcome_for_status, Curl, deliver, request}
use forge_ops_tracker_cpp.Client.Requests.{outcome_classes, deliver_sound, request_time}

abbrev accepting : Curl
accepting = record { easy_init = true; perform = λ _. some 202 }

abbrev key : Bytes
key = codes "key"

abbrev uri : Bytes
uri = codes "https://getforgeops.net/api/v1/events"

rejected_403 : delivery_outcome_for_status 403 ≡ rejected
unfolding delivery_outcome_for_status
rejected_403 = refl

outcome_classes_example : (200 ≤ 204) × (204 < 300)
unfolding delivery_outcome_for_status
outcome_classes_example = (outcome_classes 204).0.0 refl

accepting_delivers : deliver accepting (some key) (some uri) (codes "{}") 2 (some 500) ≡ true
unfolding deliver
accepting_delivers = refl

deliver_sound_example :
    (k : Bytes) × (url : Bytes) × (status : ℕ) × (some key ≡ some k)
    × (some uri ≡ some url)
    × (accepting.easy_init ≡ true)
    × (accepting.perform (request url k (codes "{}") 2 (some 500)) ≡ some status)
    × (200 ≤ status)
    × (status < 300)
deliver_sound_example =
    deliver_sound accepting (some key) (some uri) (codes "{}") 2 (some 500) accepting_delivers

request_time_example :
    (ms : ℕ) × ((request uri key (codes "{}") 2 (some 5000)).timeout_ms ≡ some ms)
    × (1 ≤ ms)
    × ((ms ≤ 5000) ⊎ (ms ≡ 1))
    × ((◌≡◌ {A = ℕ} 2 0) ⊎ (ms ≤ 2 * 1000))
request_time_example = request_time uri key (codes "{}") 2 5000
