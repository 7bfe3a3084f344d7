-- ===== src/Config/Keys.antt =====
-- `read_secret_keys` of src/config/parser.rs, from the content of the file.
use open_rmbt_server.Common.{
  Bool, ◌||◌, Option, none, some, List, [], ◌∷◌, ◌++◌, ltb, if◌then◌else◌, length, is_empty,
}
use open_rmbt_server.Text.{Bytes, codes, starts_with, split_once, lines, trim}
use open_rmbt_server.Config.Defs.{SecretKey}

-- Is the trimmed line skipped?
unfoldable pub is_skipped : Bytes → Bool
unfolding starts_with
is_skipped line = ltb (length line) 5 || starts_with line (codes "#")

-- The key on a line that is not skipped.
unfoldable pub key_of_line : Bytes → SecretKey
unfolding split_once trim
key_of_line line = elim (split_once (b' ' ∷ []) line) [
  | some (key, label) ↦ record { key = key; label = trim label }
  | none ↦ record { key = line; label = [] }
]

unfoldable pub push_keys : List Bytes → List SecretKey → List SecretKey
unfolding is_skipped key_of_line trim
push_keys [] keys = keys
push_keys (l ∷ ls) keys =
    push_keys ls (if is_skipped (trim l) then keys else keys ++ key_of_line (trim l) ∷ [])

-- `none` is an error: the file cannot be opened or is no UTF-8 (`content` is `none`), or has no key.
unfoldable pub read_secret_keys : Option Bytes → Option (List SecretKey)
unfolding push_keys lines
read_secret_keys none = none
read_secret_keys (some content) =
    let keys = push_keys (lines content) [] in if is_empty keys then none else some keys
