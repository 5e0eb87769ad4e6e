-- ===== src/Detectors/Counters.antt =====
-- hiveguard-core/src/detectors/smtp_bruteforce.rs and http_4xx_flood.rs: one window for each address.
use Prim.Native.String.{◌++◌ as ◌+++◌}
use hiveguard.Prelude.{ℕ, Bool, true, false, [], Option, none, some, ◌>>=◌, if◌then◌else◌}
use hiveguard.Net.{NetLib}
use hiveguard.Models.{DetectionSignal, EventType, NormalizedEvent}
use hiveguard.Crypto.{Blake3}
use hiveguard.Detectors.{Display, Failures, hit, ip_to_net, signal}

pub record SmtpBruteforceDetector : Type 0 where
  pub threshold : ℕ
  pub window : ℕ
  pub ban_duration : ℕ
  pub failures : Failures

unfoldable pub new_smtp : SmtpBruteforceDetector
new_smtp = record { threshold = 5; window = 300000; ban_duration = 86400000; failures = [] }

pub record Http4xxFloodDetector : Type 0 where
  pub threshold : ℕ
  pub window : ℕ
  pub ban_duration : ℕ
  pub hits : Failures

unfoldable pub new_http : Http4xxFloodDetector
new_http = record { threshold = 50; window = 60000; ban_duration = 3600000; hits = [] }

abbrev pub is_smtp_auth_failure : EventType → Bool
is_smtp_auth_failure EventType.smtp_auth_failure = true
is_smtp_auth_failure _ = false

abbrev pub is_http4xx : EventType → Bool
is_http4xx EventType.http4xx = true
is_http4xx _ = false

module _ (lib : NetLib) (blake3 : Blake3) (d : Display) where
  unfoldable pub process_smtp :
      NormalizedEvent → SmtpBruteforceDetector → SmtpBruteforceDetector × Option DetectionSignal
  process_smtp event s =
      if is_smtp_auth_failure event.event_type
      then (let ip = event.source_ip in
          let noted = hit s.window s.threshold ip event.timestamp s.failures in
          (
            record s { failures = noted.0 },
            noted.1 >>= λ n. some (
                signal lib blake3 d "SMTP brute-force: "
                  (" failed SASL authentications from " +++ d.of_addr ip) (ip_to_net ip) ip 150 90 n
                  s.ban_duration "smtp_bruteforce" event.timestamp),
          ))
      else (s, none)

  unfoldable pub process_http4xx :
      NormalizedEvent → Http4xxFloodDetector → Http4xxFloodDetector × Option DetectionSignal
  process_http4xx event s =
      if is_http4xx event.event_type
      then (let ip = event.source_ip in
          let noted = hit s.window s.threshold ip event.timestamp s.hits in
          (
            record s { hits = noted.0 },
            noted.1 >>= λ n. some (
                signal lib blake3 d "HTTP 4xx flood: " (" errors from " +++ d.of_addr ip)
                  (ip_to_net ip) ip 120 85 n s.ban_duration "http_4xx_flood" event.timestamp),
          ))
      else (s, none)
