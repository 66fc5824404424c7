-- ===== src/Webhook.antt =====
-- internal/webhook/webhook.go: who is told of a session's start and end. The posts are made in parallel
-- and their failures are ignored, so what `Send` does is the posts that it begins.
use cternal.Prelude.{List, Bytes, map}

pub record Payload : Type 0 where
  pub event : Bytes
  pub session_id : Bytes
  pub container : Bytes
  pub mode : Bytes

pub record Notifier : Type 0 where
  pub urls : List Bytes

pub record Post : Type 0 where
  pub url : Bytes
  pub payload : Payload

unfoldable pub new : List Bytes → Notifier
new urls = record { urls = urls }

unfoldable pub send : Notifier → Payload → List Post
send n payload = map (λ u. record { url = u; payload = payload }) n.urls
