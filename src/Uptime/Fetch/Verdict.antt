-- ===== src/Uptime/Fetch/Verdict.antt =====
-- When a probe finds a monitor up, and what it says of one that is down.
use Prim.Native.String.{String}
use fork_glitchtip_glitchtip.Common.{
  ℕ, ◌≡◌, ◌≢◌, ◌↔◌, ◌⊎◌, Bool, true, false, Option, none, some, if◌then◌else◌, arith, refl,
}
use fork_glitchtip_glitchtip.Uptime.Monitor.{
  Monitor, MonitorType, ping, get, post, port, ssl, heartbeat, network,
}
use fork_glitchtip_glitchtip.Uptime.Fetch.{
  Exchange, answered, failed, Probe, has_text, is_empty, same_status, process_response, answer,
  connects, exchanged, fetch_kind, fetch,
}

-- The answer is the one that the monitor expects.
abbrev pub Expected : Option ℕ → String → Exchange → Type 0
Expected wanted text (answered status body) =
    (wanted ≡ some status) × ((is_empty text ≡ true) ⊎ (has_text text body ≡ true))
Expected wanted text (failed e) = ⊥

abbrev pub Answered : Exchange → Type 0
Answered (answered status body) = Unit
Answered (failed e) = ⊥

-- What being up means for each type.
abbrev pub Succeeds : MonitorType → Probe → Option ℕ → String → Type 0
Succeeds heartbeat p wanted text = p.recent_check ≡ true
Succeeds ping p wanted text = (p.url_safe ≡ true) × Answered p.exchange
Succeeds port p wanted text = (p.url_safe ≡ true) × Answered p.exchange
Succeeds get p wanted text = (p.url_safe ≡ true) × Expected wanted text p.exchange
Succeeds post p wanted text = (p.url_safe ≡ true) × Expected wanted text p.exchange
Succeeds ssl p wanted text = ⊥

expected_status : (status : ℕ) (o : Option ℕ) → (same_status status o ≡ true) ↔ (o ≡ some status)
expected_status status none = (λ h. cc, λ h. cc)
expected_status status (some n) = (λ h. ground arith, λ h. ground arith)

process_response_up :
    (m : Monitor) (status : ℕ) (body : String)
    → m.is_up ≡ false
    → ((process_response m status body).is_up ≡ true)
      ↔ Expected m.expected_status m.expected_body (answered status body)
unfolding process_response
process_response_up m status body down = (
  λ h. ((expected_status status m.expected_status).0 (ground arith), ground arith),
  λ h. let same = (expected_status status m.expected_status).1 h.0 in ground (arith, h.1, same),
)

-- a body that is not the expected one leaves a reason, and so does a status
process_response_reason :
    (m : Monitor) (status : ℕ) (body : String)
    → (process_response m status body).is_up ≡ false
    → (process_response m status body).reason ≢ none
unfolding process_response
process_response_reason m status body down = λ h. ground arith

-- a probe that is not safe to make finds nothing up
guarded :
    {P : Type 0} (safe : Bool) (blocked result : Monitor)
    → blocked.is_up ≡ false
    → ((result.is_up ≡ true) ↔ P)
    → ((if safe then result else blocked).is_up ≡ true) ↔ ((safe ≡ true) × P)
guarded true blocked result down e = (λ h. (refl, e.0 h), λ h. e.1 h.1)
guarded false blocked result down e = (λ h. cc, λ h. cc)

open_up :
    (m : Monitor) (x : Exchange) (elapsed : ℕ)
    → m.is_up ≡ false
    → (((exchanged ping m x elapsed).is_up ≡ true) ↔ Answered x)
      × (((exchanged port m x elapsed).is_up ≡ true) ↔ Answered x)
unfolding exchanged answer connects
open_up m (answered status body) elapsed down = ((λ h. tt, λ h. refl), (λ h. tt, λ h. refl))
open_up m (failed e) elapsed down = ((λ h. cc, λ h. elim h [ ]), (λ h. cc, λ h. elim h [ ]))

content_up :
    (m : Monitor) (x : Exchange) (elapsed : ℕ)
    → m.is_up ≡ false
    → (((exchanged get m x elapsed).is_up ≡ true) ↔ Expected m.expected_status m.expected_body x)
      × (((exchanged post m x elapsed).is_up ≡ true) ↔ Expected m.expected_status m.expected_body x)
unfolding exchanged answer connects
content_up m (answered status body) elapsed down =
    (process_response_up m status body down, process_response_up m status body down)
content_up m (failed e) elapsed down = ((λ h. cc, λ h. elim h [ ]), (λ h. cc, λ h. elim h [ ]))

ssl_down :
    (m : Monitor) (x : Exchange) (elapsed : ℕ)
    → m.is_up ≡ false
    → (exchanged ssl m x elapsed).is_up ≡ false
unfolding exchanged answer connects
ssl_down m (answered status body) elapsed down = down
ssl_down m (failed e) elapsed down = down

fetch_kind_up :
    (t : MonitorType) (p : Probe) (m : Monitor)
    → m.is_up ≡ false
    → ((fetch_kind t p m).is_up ≡ true) ↔ Succeeds t p m.expected_status m.expected_body
unfolding fetch_kind
fetch_kind_up heartbeat p m down = (λ h. ground arith, λ h. ground arith)
fetch_kind_up ping p m down = guarded p.url_safe _ _ down (open_up m p.exchange p.elapsed down).0
fetch_kind_up port p m down = guarded p.url_safe _ _ down (open_up m p.exchange p.elapsed down).1
fetch_kind_up get p m down = guarded p.url_safe _ _ down (content_up m p.exchange p.elapsed down).0
fetch_kind_up post p m down = guarded p.url_safe _ _ down (content_up m p.exchange p.elapsed down).1
fetch_kind_up ssl p m down =
    (λ h. ground (arith, ssl_down m p.exchange p.elapsed down), λ h. elim h [ ])

-- A probe finds a monitor up exactly when: for a heartbeat, a check exists within the interval;
-- for Ping and TCP Port, the URL is safe and the connection was answered; for GET and POST, the
-- URL is safe, the answer has the expected status, and its body has the expected text, if one is
-- set; and never for the type SSL.
pub fetch_up :
    (p : Probe) (m : Monitor)
    → ((fetch p m).is_up ≡ true) ↔ Succeeds m.monitor_type p m.expected_status m.expected_body
unfolding fetch
fetch_up p m = fetch_kind_up m.monitor_type p (record m { is_up = false }) refl

exchanged_reason :
    (t : MonitorType) (m : Monitor) (x : Exchange) (elapsed : ℕ)
    → connects t ≡ true
    → (exchanged t m x elapsed).is_up ≡ false
    → (exchanged t m x elapsed).reason ≢ none
unfolding exchanged answer connects
exchanged_reason heartbeat m x elapsed c down = cc
exchanged_reason ssl m x elapsed c down = cc
exchanged_reason ping m (answered status body) elapsed c down = cc
exchanged_reason port m (answered status body) elapsed c down = cc
exchanged_reason get m (answered status body) elapsed c down =
    process_response_reason m status body down
exchanged_reason post m (answered status body) elapsed c down =
    process_response_reason m status body down
exchanged_reason ping m (failed e) elapsed c down = λ h. cc
exchanged_reason port m (failed e) elapsed c down = λ h. cc
exchanged_reason get m (failed e) elapsed c down = λ h. cc
exchanged_reason post m (failed e) elapsed c down = λ h. cc

probed :
    (t : MonitorType) (safe : Bool) (m : Monitor) (x : Exchange) (elapsed : ℕ)
    → connects t ≡ true
    → let m' = if safe then exchanged t m x elapsed else record m { reason = some network } in
      m'.is_up ≡ false → m'.reason ≢ none
probed t true m x elapsed c = exchanged_reason t m x elapsed c
probed t false m x elapsed c = λ down h. cc

-- Every monitor of a type that connects (Ping, GET, POST, TCP Port) that a probe finds down has a
-- reason.
fetch_down_reason :
    (p : Probe) (m : Monitor)
    → connects m.monitor_type ≡ true
    → (fetch p m).is_up ≡ false
    → (fetch p m).reason ≢ none
unfolding fetch
fetch_down_reason p m = reasons m.monitor_type
  where
    reasons :
        (t : MonitorType)
        → connects t ≡ true
        → (fetch_kind t p (record m { is_up = false })).is_up ≡ false
        → (fetch_kind t p (record m { is_up = false })).reason ≢ none
    reasons heartbeat c = unfold connects in cc
    reasons ssl c = unfold connects in cc
    reasons ping c =
        unfold fetch_kind in
        probed ping p.url_safe (record m { is_up = false }) p.exchange p.elapsed c
    reasons port c =
        unfold fetch_kind in
        probed port p.url_safe (record m { is_up = false }) p.exchange p.elapsed c
    reasons get c =
        unfold fetch_kind in
        probed get p.url_safe (record m { is_up = false }) p.exchange p.elapsed c
    reasons post c =
        unfold fetch_kind in
        probed post p.url_safe (record m { is_up = false }) p.exchange p.elapsed c
