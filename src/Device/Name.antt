-- ===== src/Device/Name.antt =====
-- internal/device/normalize.go: `DRAName`, and `ChildName` of internal/placement/placement.go. The
-- digest is the first six bytes of SHA-256 in hexadecimal.
use Prim.Native.Char.{Char, code}
use tenstorrent_dra_framewor.Base.{
  ℕ, String, ◌<>◌, Bool, not, ◌&&◌, ◌||◌, ◌==◌, string_eq, nat_eq, if◌then◌else◌, leb, ltb,
}
use tenstorrent_dra_framewor.Base.Text.{
  to_lower, trim_left, trim_right, is_dash, take_text, text_length,
}

-- A lower-case letter, a digit or a dash.
unfoldable pub is_label_char : Char → Bool
unfolding is_dash
is_label_char c =
    (leb b'a' (code c) && leb (code c) b'z')
    || ((leb b'0' (code c) && leb (code c) b'9') || is_dash c)

-- The loop that puts a dash for every other character.
unfoldable pub clean : String → String
unfolding is_label_char
clean String.[] = String.[]
clean (String.◌∷◌ c s) =
    let rest = clean s in if is_label_char c then String.◌∷◌ c rest else "-" <> rest

-- `strings.Trim(s, "-")`
unfoldable pub trim_dashes : String → String
unfolding trim_left trim_right is_dash
trim_dashes s = trim_right is_dash (trim_left is_dash s)

-- The first characters of a label, with no dash at the end.
abbrev pub cut : ℕ → String → String
cut n s = if ltb n (text_length s) then trim_right is_dash (take_text n s) else s

module _ (digest : String → String) where
  unfoldable pub child_name : String → String → String → String
  unfolding clean trim_dashes to_lower take_text text_length
  child_name workload_name workload_uid rank_name =
      let trimmed = trim_dashes (clean (to_lower (workload_name <> ("-" <> rank_name)))) in
      let prefix = if trimmed == "" then "tt" else trimmed in
      cut 50 prefix <> ("-" <> digest (workload_uid <> ("\0" <> rank_name)))

  -- `DRAName` on the stable id, the chip series of the node and its id.
  unfoldable pub dra_label : String → String → String → String
  unfolding clean trim_dashes to_lower take_text text_length
  dra_label stable_id chip_series node_id =
      let lowered = to_lower stable_id in
      let value = if lowered == "" then node_id else lowered in
      let trimmed = trim_dashes (clean value) in
      let named = if trimmed == "" then "device" else trimmed in
      let label =
        if not (trimmed == value) || ltb 59 (text_length trimmed)
        then cut 46 named <> ("-" <> digest value)
        else trimmed in
      if stable_id == "" && not (chip_series == "")
      then "tt-" <> (chip_series <> ("-" <> node_id))
      else "tt-" <> label
