-- ===== src/Text/Shell.antt =====
-- cmd/fie-importer/operations.go: `shellQuote` and `commandLine`.
pub mod Words
pub mod Command
use fie_importer.Prelude.{
  ℕ, Bool, true, false, not, ◌&&◌, ◌||◌, List, [], ◌∷◌, ◌++◌, map, ◌==◌, if◌then◌else◌, is_empty,
}
use fie_importer.Prelude.Bytes.{Bytes, codes}
use fie_importer.Text.Replace.{replace_all}

-- The cutset of `strings.Trim` in `shellQuote`.
abbrev pub safe_bytes : Bytes
safe_bytes = codes "abcdefghijklmnopqrstuvwxyzABCDEFGHIJKLMNOPQRSTUVWXYZ0123456789-_=./:,@+%"

abbrev pub contains : Bytes → ℕ → Bool
contains [] c = false
contains (x ∷ xs) c = x == c || contains xs c

unfoldable pub is_safe : ℕ → Bool
is_safe c = contains safe_bytes c

-- `strings.Trim(s, cutset) == ""`: every byte is in the cutset.
unfoldable pub all_safe : Bytes → Bool
all_safe [] = true
all_safe (c ∷ s) = is_safe c && all_safe s

abbrev pub apostrophe : ℕ
apostrophe = b'\''

abbrev pub backslash : ℕ
backslash = b'\\'

abbrev pub space : ℕ
space = b' '

abbrev pub slash : ℕ
slash = b'/'

unfoldable pub shell_quote : Bytes → Bytes
shell_quote s =
    if not (is_empty s) && all_safe s
    then s
    else apostrophe
      ∷ (replace_all s apostrophe (apostrophe ∷ backslash ∷ apostrophe ∷ apostrophe ∷ [])
          ++ apostrophe ∷ [])

-- `strings.Join(parts, sep)`
unfoldable pub join : List Bytes → Bytes → Bytes
join [] sep = []
join (p ∷ []) sep = p
join (p ∷ q ∷ ps) sep = p ++ (sep ++ join (q ∷ ps) sep)

-- `filepath.Base`: trailing slashes are dropped, then all up to the last slash.
unfoldable pub trim_slashes : Bytes → Bytes
trim_slashes [] = []
trim_slashes (c ∷ s) =
    let rest = trim_slashes s in if c == slash && is_empty rest then [] else c ∷ rest

unfoldable pub after_last_slash : Bytes → Bytes
after_last_slash [] = []
after_last_slash (c ∷ s) =
    if contains s slash then after_last_slash s else if c == slash then s else c ∷ s

unfoldable pub base : Bytes → Bytes
unfolding trim_slashes after_last_slash
base p =
    if is_empty p
    then codes "."
    else let last = after_last_slash (trim_slashes p) in if is_empty last then codes "/" else last

unfoldable pub command_line : List Bytes → Bytes
command_line [] = []
command_line (program ∷ args) = join (base program ∷ map shell_quote args) (space ∷ [])
