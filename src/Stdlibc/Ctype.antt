-- ===== src/Stdlibc/Ctype.antt =====
-- lib/stdlibc/ctype.c: the classes of characters. An `int` is its pattern of 32 bits, and a `char` is
-- its pattern of 8 bits.
pub mod Classes
use mein_os.Prelude.{ℕ, ◌+◌, ◌-◌, ◌%◌, ◌^◌, Bool, not, ◌&&◌, ◌||◌, ◌==◌, if◌then◌else◌, ltb, leb}

-- `a<b` of two `int`s
abbrev pub int_lt : (a b : ℕ) → Bool
int_lt a b = ltb ((a + 2 ^ 31) % 2 ^ 32) ((b + 2 ^ 31) % 2 ^ 32)

-- `c>=lo && c<=hi`, between two characters
abbrev pub between : (lo hi c : ℕ) → Bool
between lo hi c = not (int_lt c lo) && not (int_lt hi c)

-- The functions, in the order of the source
unfoldable pub iscntrl : ℕ → Bool
iscntrl c = int_lt c 32

unfoldable pub isdigit : ℕ → Bool
isdigit c = between 48 57 c

unfoldable pub islower : ℕ → Bool
islower c = between 97 122 c

unfoldable pub isprint : ℕ → Bool
isprint c = not (int_lt c 32)

unfoldable pub isspace : ℕ → Bool
isspace c = c == 32 || (c == 12 || (c == 10 || (c == 13 || (c == 9 || c == 11))))

unfoldable pub isblank : ℕ → Bool
isblank c = isspace c

unfoldable pub isupper : ℕ → Bool
isupper c = between 65 90 c

unfoldable pub isxdigit : ℕ → Bool
isxdigit c = isdigit c || (between 65 70 c || between 97 102 c)

unfoldable pub isalpha : ℕ → Bool
isalpha c = isupper c || islower c

unfoldable pub isalnum : ℕ → Bool
isalnum c = isalpha c || isdigit c

unfoldable pub isgraph : ℕ → Bool
isgraph c = isalnum c && not (c == 32)

unfoldable pub ispunct : ℕ → Bool
ispunct c = isprint c && not (isalnum c)

unfoldable pub tolower : ℕ → ℕ
tolower c = if isupper c then (c + 32) % 2 ^ 8 else c % 2 ^ 8

unfoldable pub toupper : ℕ → ℕ
toupper c = if islower c then (c + 2 ^ 32 - 32) % 2 ^ 8 else c % 2 ^ 8
