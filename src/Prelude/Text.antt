-- ===== src/Prelude/Text.antt =====
-- Text as the program reads it: its characters, its size in bytes, and character classes.
use Prim.Native.Nat.{ℕ}
use Prim.Native.Char.{code}
use Prim.Native.String.{String, len}
use mathlib.Core.Bool.{Bool, true, ◌&&◌, ◌||◌}
use mathlib.Core.List.{List, [], ◌∷◌}
use keys_keeper_skill.Prelude.Tests.{leb, ◌==◌, nat_eq}
use keys_keeper_skill.Prelude.Lists.{length}

-- the code points, which Python's `len` counts and its regular expressions read
abbrev pub codes : String → List ℕ
codes String.[] = []
codes (String.◌∷◌ c s) = code c ∷ codes s

-- the size in UTF-8
abbrev pub utf8_size : String → ℕ
utf8_size s = len s

-- Python's `all(p(c) for c in s)`
abbrev pub every : (ℕ → Bool) → List ℕ → Bool
every p [] = true
every p (c ∷ s) = p c && every p s

unfoldable pub is_lower : ℕ → Bool
is_lower c = leb b'a' c && leb c b'z'

pub is_upper : ℕ → Bool
is_upper c = leb b'A' c && leb c b'Z'

unfoldable pub is_digit : ℕ → Bool
is_digit c = leb b'0' c && leb c b'9'

pub is_lower_hex : ℕ → Bool
is_lower_hex c = (leb b'0' c && leb c b'9') || (leb b'a' c && leb c b'f')

-- `fullmatch` of a class repeated between `low` and `high` times
unfoldable pub full_match : (ℕ → Bool) → ℕ → ℕ → String → Bool
full_match p low high s =
    let cs = codes s in leb low (length cs) && leb (length cs) high && every p cs

-- `[A-Za-z0-9_-]`
unfoldable pub is_url_char : ℕ → Bool
unfolding is_lower is_upper is_digit
is_url_char c = is_upper c || is_lower c || is_digit c || c == b'_' || c == b'-'

-- `fullmatch` of `[0-9a-f]{64}`
unfoldable pub is_sha256_hex : String → Bool
unfolding full_match is_lower_hex
is_sha256_hex = full_match is_lower_hex 64 64
