-- ===== src/Tests/Limits.antt =====
-- The theorems on limits, accounts and identities, applied to concrete values.
use miakapp_server.Prelude.{◌↔◌, ◌≤◌, ◌≡◌, ◌≢◌, refl, none, some, [], ◌∷◌, true, false, arith}
use miakapp_server.Text.{codes, Text}
use miakapp_server.Config.{default_config, UrlLibrary, validate}
use miakapp_server.Auth.Identity.{Request, Identity, user, validate_binding}
use miakapp_server.Auth.Platform.{KeyLibrary, Verification, user_access, granted, verify, Access}
use miakapp_server.Auth.Platform
use miakapp_server.Auth.Binding.{IsBound, validate_binding-IsBound, IsVerified, verify-IsVerified}
use miakapp_server.Relay.Admission.{acquire_connection, release_connection}
use miakapp_server.Relay.Admission.Counting.{
  IsCounted, acquire_connection-IsCounted, release_connection-IsCounted,
}
use miakapp_server.Relay.Outbound.{Message, enqueue_bytes, queue_full}
use miakapp_server.Relay.Outbound.Accounting.{
  IsAccounted, enqueue_bytes-IsAccounted, enqueue_bytes_room,
}
use miakapp_server.Relay.Patterns.{pattern_matches}
use miakapp_server.Relay.Patterns.Meaning.{Means, pattern_matches_iff}
use miakapp_server.Relay.Frame
use miakapp_server.Tests.Data.{admission, printable, empty_queue}

abbrev urls : UrlLibrary
urls = record { parse = λ t. none; trim_space = λ t. t }

default_valid : validate urls 1_048_576 default_config ≡ none
unfolding validate miakapp_server.Text.text_beq default_config
default_valid = refl

abbrev request : Request
request = record { role = user; token = codes "x"; home_id = codes "h"; coordinator_name = [] }

abbrev identity : Identity
identity = record {
  role = user;
  home_id = codes "h";
  id = codes "u";
  client_id = [];
  coordinator_name = [];
  verified_email = [];
  expires_at = 5_000_000_000;
  scopes = (codes "relay:user", tt) ∷ [];
}

binding_accepted : validate_binding printable request identity 1_000 ≡ none
unfolding validate_binding miakapp_server.Text.text_beq miakapp_server.GoMap.lookup
binding_accepted = refl

validate_binding-IsBound_example : IsBound printable request identity 1_000
validate_binding-IsBound_example =
    validate_binding-IsBound printable request identity 1_000 binding_accepted

abbrev keys : KeyLibrary
keys = record {
  Keys = Unit {0};
  current = some tt;
  refresh_unknown_kid = none;
  verify_token = λ token profile k.
      Platform.verified
        (user_access (codes "relay:user") (codes "user") none (codes "h") (codes "u") 5);
}

token_granted : verify keys request ≡ granted identity
unfolding verify miakapp_server.Text.text_beq
token_granted = refl

verify-IsVerified_example : IsVerified user identity
verify-IsVerified_example = verify-IsVerified keys request identity token_granted

admission-IsCounted : IsCounted default_config admission
unfolding default_config
admission-IsCounted = record {
  distinct = tt;
  exact = refl;
  capped = omega arith;
  each = tt;
  tracked = omega arith;
  budget = omega arith;
}

acquire_connection-IsCounted_example :
    IsCounted default_config (acquire_connection default_config admission 4 1_000).0
acquire_connection-IsCounted_example =
    acquire_connection-IsCounted default_config admission 4 1_000 admission-IsCounted

admission_after-IsCounted :
    IsCounted default_config (acquire_connection default_config admission 4 1_000).0
admission_after-IsCounted =
    acquire_connection-IsCounted default_config admission 4 1_000 admission-IsCounted

release_connection-IsCounted_example :
    IsCounted default_config
      (release_connection (acquire_connection default_config admission 4 1_000).0 4 2_000)
release_connection-IsCounted_example =
    release_connection-IsCounted default_config
      (acquire_connection default_config admission 4 1_000).0 4 2_000 admission_after-IsCounted

abbrev message : Message
message = record {
  frame = Frame.goaway 1 2;
  size = 100;
  droppable_stream = false;
  close_status = 0;
  close_reason = "";
  ends_request = none;
}

queue-IsAccounted : IsAccounted default_config admission empty_queue
unfolding default_config
queue-IsAccounted = record {
  exact = refl;
  bounded = omega arith;
  reserved = omega arith;
  budget = omega arith;
}

enqueue_bytes-IsAccounted_example :
    IsAccounted default_config
      (enqueue_bytes default_config admission empty_queue message true).0
      (enqueue_bytes default_config admission empty_queue message true).1
enqueue_bytes-IsAccounted_example =
    (enqueue_bytes-IsAccounted default_config admission empty_queue message true
      queue-IsAccounted).0

message_fits : message.size ≤ default_config.max_queued_bytes
unfolding default_config
message_fits = omega arith

enqueue_bytes_room_example :
    (enqueue_bytes default_config admission empty_queue message true).2 ≢ some queue_full
enqueue_bytes_room_example =
    enqueue_bytes_room default_config admission empty_queue message queue-IsAccounted message_fits

pattern_matches_iff_example :
    (pattern_matches (codes "a.*") (codes "a.b") ≡ true) ↔ Means (codes "a.*") (codes "a.b")
pattern_matches_iff_example = pattern_matches_iff (codes "a.*") (codes "a.b")
