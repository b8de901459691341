-- ===== src/CacheRender/Ttl.antt =====
-- The times of nginx and the Cache-Control header: cacheTTLToSeconds, lastToken and browserCC of
-- brisk-agent/nginx/cache.go.
use brisk.Prelude.{
  ℕ, ◌*◌, ◌%◌, ◌^◌, Bytes, codes, str_eq, trim_space, format_int, parse_int, is_digit, Option, none,
  some, ◌&&◌, [], ◌∷◌, ◌++◌, ltb, ◌==◌, if◌then◌else◌, is_space,
}
use mathlib.Core.List.{reverse}

-- the text before the first white space
unfoldable word : Bytes → Bytes
word [] = []
word (c ∷ s) = if is_space c then [] else c ∷ word s

unfoldable last_token : Bytes → Bytes
unfolding trim_space word
last_token s = reverse (word (reverse (trim_space s)))

-- the number of seconds of a unit
abbrev unit_seconds : ℕ → Option ℕ
unit_seconds unit =
    if unit == b's'
    then some 1
    else if unit == b'm'
    then some 60
    else if unit == b'h'
    then some 3600
    else if unit == b'd'
    then some 86400
    else if unit == b'w'
    then some 604800
    else if unit == b'M'
    then some 2592000
    else if unit == b'y'
    then some 31536000
    else none

-- strconv.Atoi of 64 bits, without the texts of a negative number, which the caller refuses
unfoldable atoi : Bytes → Option ℕ
unfolding parse_int
atoi [] = none
atoi (c ∷ s) = elim (parse_int (if c == b'+' then s else c ∷ s)) [
  | some n ↦ if ltb n (2 ^ 63) then some n else none
  | none ↦ none
]

-- n * mult as a word of 64 bits; 0 on an error
abbrev times : Option ℕ → ℕ → ℕ
times none mult = 0
times (some n) mult = n * mult % 2 ^ 64

-- the value of the text whose reverse this is
unfoldable seconds_of : Bytes → ℕ
unfolding atoi
seconds_of [] = 0
seconds_of (unit ∷ rest) = elim (unit_seconds unit) [
  | some mult ↦ times (atoi (reverse rest)) mult
  | none ↦ if is_digit unit then times (atoi (reverse (unit ∷ rest))) 1 else 0
]

unfoldable cache_ttl_to_seconds : Bytes → ℕ
unfolding trim_space seconds_of
cache_ttl_to_seconds t = seconds_of (reverse (trim_space t))

-- "s > 0" on a word of 64 bits with a sign
abbrev max_age : ℕ → Bytes → Bytes
max_age s fallback =
    if ltb 0 s && ltb s (2 ^ 63) then codes "public, max-age=" ++ format_int s else fallback

unfoldable pub browser_cc : Bytes → Bytes → Bytes → Bytes → Bytes
unfolding str_eq cache_ttl_to_seconds last_token
browser_cc mode ttl fallback edge_valid =
    if str_eq mode (codes "no_cache")
    then codes "no-store, no-cache, must-revalidate"
    else if str_eq mode (codes "override")
    then max_age (cache_ttl_to_seconds ttl) fallback
    else if str_eq mode (codes "match_server")
    then max_age (cache_ttl_to_seconds (last_token edge_valid)) fallback
    else fallback
