-- ===== src/Interpolate.antt =====
-- internal/config/interpolate.go: references to the environment and to files in the texts of the
-- configuration file. What the two kinds of reference resolve to is a parameter: os.LookupEnv, and
-- the reading of a file, whose one trailing newline is taken off here.
pub mod Pass
pub mod Escape
pub mod Value
mod Tests
use token_auth_proxy.Common.{
  ℕ, zero, suc, Bool, true, false, not, ◌&&◌, ◌||◌, Option, none, some, List, [], ◌∷◌, ◌++◌, all,
  is_empty, leb, eqb, length, if◌then◌else◌,
}
use token_auth_proxy.Text.{Text, text, ◌==◌, cut, contains, cut_prefix, cut_suffix}

pub data RefError : Type 0 where
  unterminated out_of_fuel : RefError
  unknown_type : Text → RefError
  no_name unset no_path : RefError
  unreadable : Text → RefError

pub data Result {ℓ} (A : Type ℓ) : Type ℓ where
  ok : A → Result A
  err : RefError → Result A

abbrev is_letter : ℕ → Bool
is_letter c = (leb b'a' c && leb c b'z') || (leb b'A' c && leb c b'Z')

abbrev is_word : ℕ → Bool
is_word c = is_letter c || (eqb c b'_' || (leb b'0' c && leb c b'9'))

-- At least two bytes, a letter and then letters, digits or underscores.
unfoldable pub looks_like_ref_type : Text → Bool
looks_like_ref_type [] = false
looks_like_ref_type (c ∷ []) = false
looks_like_ref_type (c ∷ d ∷ s) = is_letter c && all is_word (d ∷ s)

-- One trailing "\r\n" or "\n" is taken off.
unfoldable pub strip_newline : Text → Text
strip_newline s = elim (cut_suffix s (13 ∷ 10 ∷ [])) [
  | some r ↦ r
  | none ↦ elim (cut_suffix s (10 ∷ [])) [ some r ↦ r | none ↦ s ]
]

-- What lies outside the program: the environment, and the contents of the file at a path, or the
-- reason that it cannot be had (it does not exist, is a directory, or is over the limit).
pub record World : Type 0 where
  pub lookup_env : Text → Option Text
  pub read_file : Text → Option Text

-- What stands at a byte and behind it.
pub data Piece : Type 0 where
  copied : Piece
  escaped : Text → Piece
  unclosed : Piece
  reference : Text → Text → Piece

unfoldable pub classify : ℕ → Text → Piece
classify c s = if not (eqb c b'$') then copied else elim (cut_prefix s (text "${")) [
  | some rest ↦ escaped rest
  | none ↦ elim (cut_prefix s (text "{")) [
    | none ↦ copied
    | some after ↦ elim (cut b'}' after) [
      | none ↦ unclosed
      | some (inner, rest) ↦ reference inner rest
    ]
  ]
]

module _ (world : World) where
  open world use {lookup_env, read_file}

  unfoldable pub resolve_env_ref : Text → Result Text
  resolve_env_ref [] = err no_name
  resolve_env_ref (c ∷ name) = elim (lookup_env (c ∷ name)) [ none ↦ err unset | some v ↦ ok v ]

  unfoldable pub resolve_file_ref : Text → Result Text
  unfolding strip_newline
  resolve_file_ref [] = err no_path
  resolve_file_ref (c ∷ path) = elim (read_file (c ∷ path)) [
    | none ↦ err (unreadable (c ∷ path))
    | some s ↦ ok (strip_newline s)
  ]

  -- `ok none`: the text is no reference.
  abbrev a_ref : Result Text → Result (Option Text)
  a_ref (ok v) = ok (some v)
  a_ref (err e) = err e

  abbrev resolve_kind : Text → Text → Text → Result (Option Text)
  resolve_kind inner kind arg =
      if kind == text "env"
      then a_ref (resolve_env_ref arg)
      else if kind == text "file"
      then a_ref (resolve_file_ref arg)
      else err (unknown_type inner)

  unfoldable pub resolve_ref : Text → Result (Option Text)
  unfolding looks_like_ref_type resolve_env_ref resolve_file_ref
  resolve_ref inner = elim (cut b':' inner) [
    | none ↦ ok none
    | some (kind, arg) ↦ if looks_like_ref_type kind then resolve_kind inner kind arg else ok none
  ]

  abbrev prepend : Text → Result Text → Result Text
  prepend s (ok rest) = ok (s ++ rest)
  prepend s (err e) = err e

  -- What one reference is replaced by, before the rest of the text.
  abbrev replaced : Text → Result (Option Text) → Result Text → Result Text
  replaced inner (ok none) rest = prepend (text "${" ++ (inner ++ text "}")) rest
  replaced inner (ok (some v)) rest = prepend v rest
  replaced inner (err e) rest = err e

  -- What a piece adds to the output, and where the loop goes on.
  unfoldable pub resume : (Text → Result Text) → ℕ → Text → Piece → Result Text
  unfolding resolve_ref
  resume again c s copied = prepend (c ∷ []) (again s)
  resume again c s (escaped rest) = prepend (text "${") (again rest)
  resume again c s unclosed = err unterminated
  resume again c s (reference inner rest) = replaced inner (resolve_ref inner) (again rest)

  -- The loop over the text, on fuel: each round takes at least one byte. A value that a reference
  -- resolves to is written out and not read again.
  unfoldable pub scan : ℕ → Text → Result Text
  unfolding classify resume
  scan zero s = err out_of_fuel
  scan (suc fuel) [] = ok []
  scan (suc fuel) (c ∷ s) = resume (scan fuel) c s (classify c s)

  unfoldable pub interpolate_string : Text → Result Text
  unfolding scan
  interpolate_string s = if not (contains s (text "${")) then ok s else scan (suc (length s)) s
