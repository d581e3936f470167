-- ===== src/Tokens/Chars.antt =====
-- lib/token.c and include/mtoken.h: the classes of characters.
use osdb_dcdb.Prelude.{ℕ, Bool, ◌&&◌, ◌||◌, ◌==◌, leb}

abbrev pub eof : ℕ
eof = 255

unfoldable pub is_white : ℕ → Bool
is_white c = c == b' ' || c == b'\t'

unfoldable pub is_digit : ℕ → Bool
is_digit c = leb b'0' c && leb c b'9'

unfoldable pub is_alpha : ℕ → Bool
is_alpha c = (leb b'a' c && leb c b'z') || (leb b'A' c && leb c b'Z')

unfoldable pub is_alnum : ℕ → Bool
unfolding is_alpha is_digit
is_alnum c = is_alpha c || is_digit c

-- `isalnum (pi->ch) || pi->ch == '_'`
unfoldable pub is_name : ℕ → Bool
unfolding is_alnum
is_name c = is_alnum c || c == b'_'

-- `isalpha (pi->ch) || pi->ch == '_'`
unfoldable pub starts_name : ℕ → Bool
unfolding is_alpha
starts_name c = is_alpha c || c == b'_'
