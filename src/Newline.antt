-- ===== src/Newline.antt =====
-- Line breaks for the browser's terminal: normalizeLF of internal/api/ws.go, normalizeLFBytes of
-- cmd/cternal/logscast.go, and the same two calls in StartStreamPump of internal/session/session.go.
pub mod Laws
mod Tests
use cternal.Prelude.{[], ◌∷◌, Bytes}
use cternal.Std.{replace_all}

abbrev pub lf : Bytes
lf = 10 ∷ []

abbrev pub crlf : Bytes
crlf = 13 ∷ 10 ∷ []

unfoldable pub normalize_lf : Bytes → Bytes
unfolding replace_all
normalize_lf content = replace_all (replace_all content crlf lf) lf crlf

unfoldable pub normalize_lf_bytes : Bytes → Bytes
unfolding replace_all
normalize_lf_bytes content = let joined = replace_all content crlf lf in replace_all joined lf crlf
