-- ===== src/Api/Static/Pages.antt =====
-- Which page the frontend's paths have.
use cternal.Prelude.{
  ◌≡◌, refl, sym, ap, ◌∙◌, append-nil, Bool-cases, inl, inr, ◌⊎◌, true, some, [], ◌∷◌, ◌++◌, Bytes,
  codes, bytes_eq,
}
use cternal.Std.{trim_prefix}
use cternal.Std.Trim.{trim_prefix-append}
use cternal.Api.Static.{Files, file, is_asset, path_below, serve_index, static_handler}

module _ (quoted : Bytes → Bytes) (fs : Files) (base_path : Bytes) where
  index_below : path_below quoted base_path base_path ≡ codes "/"
  unfolding bytes_eq
  index_below =
      let none_left : trim_prefix base_path base_path ≡ [] =
        ap (λ u. trim_prefix u base_path) (sym (append-nil base_path))
        ∙ trim_prefix-append base_path [] in
      rw none_left refl

  own_page : static_handler quoted (some fs) base_path base_path ≡ serve_index quoted fs base_path
  unfolding static_handler bytes_eq
  own_page = rw index_below refl

  -- Below the base path every path has a page: that of a file, if there is one of its name other than the
  -- index, and else the one that the base path has itself, whatever the path.
  pub static_handler_lem :
      (path : Bytes)
      → let page = static_handler quoted (some fs) base_path (base_path ++ path) in
        ((is_asset quoted fs path ≡ true) × (page ≡ file path))
        ⊎ (page ≡ static_handler quoted (some fs) base_path base_path)
  unfolding static_handler bytes_eq
  static_handler_lem [] =
      inr (ap (static_handler quoted (some fs) base_path) (append-nil base_path))
  static_handler_lem (c ∷ s) =
      let path = c ∷ s in
      let below : path_below quoted base_path (base_path ++ path) ≡ path =
        rw (trim_prefix-append base_path path) refl in
      elim (Bool-cases (is_asset quoted fs path)) [
        | inl asset ↦ inl (asset, rw (below, asset) refl)
        | inr other ↦ inr (rw (below, other) (sym own_page))
      ]
