-- ===== src/Assembler/Markup.antt =====
-- assembler.py: `sanitize` and the text functions of `_slug`.
use Prim.Native.Char.{Char, code}
use Prim.Native.String.{String, [], ◌∷◌}
use wiki_spike.Base.{Bool, not, ◌&&◌, ◌||◌, ◌==◌, leb, if◌then◌else◌}
use wiki_spike.Base.Texts.{append, is_empty}

-- `_MD_UNSAFE`
unfoldable pub is_unsafe : Char → Bool
is_unsafe c =
    let n = code c in
    n == b'\\'
    || n == b'`'
    || n == b'*'
    || n == b'_'
    || n == b'{'
    || n == b'}'
    || n == b'['
    || n == b']'
    || n == b'('
    || n == b')'
    || n == b'#'
    || n == b'+'
    || n == b'-'
    || n == b'!'
    || n == b'<'
    || n == b'>'
    || n == b'|'

-- `text.replace("&", "&amp;")`
unfoldable pub replace_amp : String → String
replace_amp [] = []
replace_amp (c ∷ s) =
    let rest = replace_amp s in if code c == b'&' then append "&amp;" rest else c ∷ rest

unfoldable pub replace_lt : String → String
replace_lt [] = []
replace_lt (c ∷ s) =
    let rest = replace_lt s in if code c == b'<' then append "&lt;" rest else c ∷ rest

unfoldable pub replace_gt : String → String
replace_gt [] = []
replace_gt (c ∷ s) =
    let rest = replace_gt s in if code c == b'>' then append "&gt;" rest else c ∷ rest

-- `_MD_UNSAFE.sub(lambda m: "\\" + m.group(0), text)`
unfoldable pub escape_unsafe : String → String
unfolding is_unsafe
escape_unsafe [] = []
escape_unsafe (c ∷ s) =
    let rest = escape_unsafe s in if is_unsafe c then "\\" ∷ c ∷ rest else c ∷ rest

unfoldable pub sanitize : String → String
unfolding escape_unsafe replace_gt replace_lt replace_amp
sanitize text = escape_unsafe (replace_gt (replace_lt (replace_amp text)))

abbrev is_slug : Char → Bool
is_slug c = leb b'a' (code c) && leb (code c) b'z' || leb b'0' (code c) && leb (code c) b'9'

-- `_SLUG.sub("-", s)`: `in_run` tells that the run of other characters has its dash already
unfoldable pub collapse : Bool → String → String
collapse in_run [] = []
collapse in_run (c ∷ s) =
    let rest = collapse (not (is_slug c)) s in
    if is_slug c then c ∷ rest else if in_run then rest else "-" ∷ rest

abbrev pub strip_start : String → String
strip_start [] = []
strip_start (c ∷ s) = if code c == b'-' then strip_start s else c ∷ s

abbrev pub strip_end : String → String
strip_end [] = []
strip_end (c ∷ s) =
    let rest = strip_end s in if is_empty rest && code c == b'-' then [] else c ∷ rest
