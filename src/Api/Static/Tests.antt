-- ===== src/Api/Static/Tests.antt =====
-- Examples of the frontend's files.
use cternal.Prelude.{◌≡◌, refl, some, ◌++◌, Bytes, codes, bytes_eq}
use cternal.Std.{trim_prefix, strip_prefix, replace_all}
use cternal.Api.Static.{Files, html, script, serve_index, static_handler}

abbrev quoted : Bytes → Bytes
quoted s = codes "'" ++ (s ++ codes "'")

abbrev built : Files
built = record { has = bytes_eq (codes "app.js"); read = λ name. some (codes "<head></head>") }

any_session :
    static_handler quoted (some built) (codes "/t") (codes "/t/sessions/1")
    ≡ html (codes "<head><script>window.__BASE_PATH__='/t'</script></head>")
unfolding static_handler serve_index script trim_prefix strip_prefix replace_all bytes_eq
any_session = refl
