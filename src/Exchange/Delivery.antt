-- ===== src/Exchange/Delivery.antt =====
-- How the request of a heartbeat gets to the server's handler, and its answer to the client.
use migration_platform.Prelude.{ℕ, ◌++◌, ◌≤◌, ◌≡◌, refl, ◌∙◌, some, Result, length, arith}
use migration_platform.Text.{Str, lit, as_bytes, str_eq}
use migration_platform.Time.{Instant}
use migration_platform.Json.{Value}
use migration_platform.License.Signing.{Codec}
use migration_platform.License.Client.{
  World, LicenseServer, heartbeat_body, judge_reply, heartbeat_once,
}
use migration_platform.Vendor.Types.{
  ServerConfig, ServerState, ServerError, Arrival, HeartbeatRequest, HeartbeatResponse,
}
use migration_platform.Vendor.Heartbeat.{heartbeat}
use migration_platform.Exchange.{
  read_request, bearer_auth, body_limit, respond, handle_json, post_heartbeat,
}

-- The request that a heartbeat of the client stands for.
abbrev pub sent_request : Str → Value → Str → HeartbeatRequest
sent_request fp file version = record {
  fingerprint = fp;
  license_file = file;
  product = some (lit "migration-platform");
  version = some version;
}

read-heartbeat_body :
    (fp : Str) (file : Value) (version : Str)
    → read_request (heartbeat_body fp file version) ≡ some (sent_request fp file version)
unfolding read_request str_eq
read-heartbeat_body fp file version = refl

module _ (c : Codec) (instant_value : Instant → Value) where
  module _ (rejection : ℕ → Str) (cfg : ServerConfig) where
    -- The client's request for the license that it holds as `file` gets to the route of the
    -- server, within the limit of its size, and the client is given the answer.
    pub record Delivered (w : World) (server : LicenseServer) (fp : Str) (file : Value)
        (a : Arrival) (s : ServerState) : Type 0 where
      pub text : Str
      pub written : c.text_of_value (heartbeat_body fp file w.version) ≡ some text
      pub fits : length (as_bytes text) ≤ body_limit
      pub reads : c.value_of_text text ≡ some (heartbeat_body fp file w.version)
      pub header : a.authorization ≡ bearer_auth server.token
      pub carried :
          w.http
            (server.base_url ++ lit "/v1/heartbeat")
            server.token
            (heartbeat_body fp file w.version)
          ≡ (post_heartbeat c instant_value rejection cfg a text s).0

    module _ (w : World) (server : LicenseServer) (fp raw : Str) (file : Value) (a : Arrival)
        (s : ServerState) (sent : Delivered w server fp file a s) where
      delivered-respond :
          w.http
            (server.base_url ++ lit "/v1/heartbeat")
            server.token
            (heartbeat_body fp file w.version)
          ≡ respond c instant_value (heartbeat c cfg a (sent_request fp file w.version) s).0
      delivered-respond =
          sent.carried
          ∙ (unfold post_heartbeat handle_json in
              ground (arith, sent.fits, sent.reads, read-heartbeat_body fp file w.version))

      -- The outcome is the client's judgement of what the handler answers.
      pub heartbeat_once-respond :
          (key : c.PublicKey) (answer : Result ServerError HeartbeatResponse)
          → c.value_of_text raw ≡ some file
          → (heartbeat c cfg a (sent_request fp file w.version) s).0 ≡ answer
          → heartbeat_once c w server fp raw key
            ≡ judge_reply c w
                (server.base_url ++ lit "/v1/heartbeat")
                fp
                key
                (respond c instant_value answer)
      heartbeat_once-respond key answer held answered_so =
          unfold heartbeat_once in rw (held, heartbeat_once, delivered-respond, answered_so)
