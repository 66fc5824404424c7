-- ===== src/Api/Static.antt =====
-- internal/api/static.go: the frontend's files. The file system that the build embeds, the file server of
-- net/http and the quoting of Sprintf's verb %q are parameters.
pub mod Pages
mod Tests
use cternal.Prelude.{
  ℕ, Bool, true, false, not, ◌&&◌, Option, none, some, [], ◌++◌, Bytes, codes, bytes_eq,
  if◌then◌else◌,
}
use cternal.Std.{trim_prefix, replace_all}

pub record Files : Type 0 where
  -- fs.Stat finds a file of that name
  pub has : Bytes → Bool
  -- fs.ReadFile; `none` is an error
  pub read : Bytes → Option Bytes

-- No page; the file of a path, by the file server; a page.
pub data Page : Type 0 where
  not_found : Page
  file : Bytes → Page
  html : Bytes → Page

module _ (quoted : Bytes → Bytes) where
  unfoldable pub script : Bytes → Bytes
  script base_path =
      codes "<script>window.__BASE_PATH__=" ++ (quoted base_path ++ codes "</script>")

  unfoldable pub serve_index : Files → Bytes → Page
  unfolding script
  serve_index fs base_path = elim (fs.read (codes "index.html")) [
    | none ↦ not_found
    | some content ↦
        html (replace_all content (codes "</head>") (script base_path ++ codes "</head>"))
  ]

  -- The path of a request below the base path.
  abbrev pub path_below : Bytes → Bytes → Bytes
  path_below base_path url =
      let path = trim_prefix url base_path in if bytes_eq path [] then codes "/" else path

  -- Whether a path is that of a file other than the index.
  abbrev pub is_asset : Files → Bytes → Bool
  is_asset fs path =
      not (bytes_eq path (codes "/"))
      && not (bytes_eq path (codes "/index.html"))
      && fs.has (trim_prefix path (codes "/"))

  unfoldable pub static_handler : Option Files → Bytes → Bytes → Page
  unfolding serve_index trim_prefix
  static_handler none base_path url = not_found
  static_handler (some fs) base_path url =
      let path = path_below base_path url in
      if is_asset fs path then file path else serve_index fs base_path
