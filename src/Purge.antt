-- ===== src/Purge.antt =====
-- The cache purge of the agent, brisk-agent/purge/purge.go. The cache is the list of the files that
-- the walk meets, without the directories; text is ASCII.
pub mod Match
mod Examples
use brisk.Prelude.{
  ℕ, zero, suc, Bytes, codes, str_eq, has_prefix, strip, cut, Option, none, some, Bool, true, false,
  ◌&&◌, ◌||◌, not, List, [], ◌∷◌, ◌++◌, leb, ◌==◌, if◌then◌else◌, any,
}

pub record Message : Type 0 where
  pub type : Bytes
  pub hosts : List Bytes
  pub target : Bytes
  pub job_id : ℕ
  pub zone_id : ℕ

pub record CacheFile : Type 0 where
  pub path : Bytes
  -- none if it cannot be opened
  pub content : Option Bytes

abbrev pub is_token_char : ℕ → Bool
is_token_char c =
    leb b'a' c && leb c b'z'
    || leb b'A' c && leb c b'Z'
    || leb b'0' c && leb c b'9'
    || c == b'-'
    || c == b'_'

unfoldable pub sanitize_token : Bytes → Bytes
sanitize_token [] = []
sanitize_token (c ∷ s) = (if is_token_char c then c else b'_') ∷ sanitize_token s

unfoldable pub edge_subject : Bytes → Bytes
unfolding sanitize_token
edge_subject edge_id = codes "brisk.purge.edge." ++ sanitize_token edge_id

abbrev pub with_slash : Bytes → Bytes
with_slash target = if has_prefix target (codes "/") then target else b'/' ∷ target

-- strings.TrimSuffix(s, "*")
unfoldable pub trim_star : Bytes → Bytes
trim_star [] = []
trim_star (c ∷ []) = if c == b'*' then [] else c ∷ []
trim_star (c ∷ (d ∷ s)) = c ∷ trim_star (d ∷ s)

unfoldable pub target_prefix : Message → Bytes
unfolding trim_star
target_prefix m =
    if str_eq m.type (codes "zone") || str_eq m.target []
    then trim_star (with_slash (codes "/"))
    else trim_star (with_slash m.target)

unfoldable pub prefixes : List Bytes → Bytes → List Bytes
prefixes [] target = []
prefixes (h ∷ hs) target =
    let rest = prefixes hs target in if str_eq h [] then rest else (h ++ target) ∷ rest

unfoldable pub contains : Bytes → Bytes → Bool
contains [] part = has_prefix [] part
contains (c ∷ s) part = has_prefix (c ∷ s) part || contains s part

abbrev pub marker : Bytes
marker = 10 ∷ codes "KEY: "

abbrev pub or_text : Option Bytes → Option Bytes → Option Bytes
or_text none b = b
or_text (some a) b = some a

-- what follows the first marker
unfoldable pub after_marker : Bytes → Option Bytes
after_marker [] = none
after_marker (c ∷ s) = or_text (strip (c ∷ s) marker) (after_marker s)

abbrev pub line_of : Bytes × Option Bytes → Option Bytes
line_of (line, none) = none
line_of (line, some rest) = some line

abbrev pub first_line : Option Bytes → Option Bytes
first_line none = none
first_line (some s) = line_of (cut 10 s)

unfoldable pub take_bytes : ℕ → Bytes → Bytes
take_bytes zero s = []
take_bytes (suc n) [] = []
take_bytes (suc n) (c ∷ s) = c ∷ take_bytes n s

abbrev pub key_header_scan : ℕ
key_header_scan = 2048

unfoldable pub read_cache_key : Option Bytes → Option Bytes
unfolding after_marker
read_cache_key none = none
read_cache_key (some text) = first_line (after_marker (take_bytes key_header_scan text))

abbrev pub key_matches : List Bytes → Option Bytes → Bool
key_matches pres none = false
key_matches pres (some key) = any (λ pre. has_prefix key pre) pres

unfoldable pub file_matches : Bool → List Bytes → CacheFile → Bool
unfolding contains read_cache_key
file_matches match_all pres f =
    not (contains f.path (codes "/temp/"))
    && (match_all || key_matches pres (read_cache_key f.content))

-- the files that are left; os.Remove may fail
unfoldable pub walk : (Bytes → Bool) → Bool → List Bytes → List CacheFile → List CacheFile
unfolding file_matches
walk removable match_all pres [] = []
walk removable match_all pres (f ∷ fs) =
    let rest = walk removable match_all pres fs in
    if file_matches match_all pres f && removable f.path then rest else f ∷ rest

abbrev pub is_empty_list : List Bytes → Bool
is_empty_list [] = true
is_empty_list (p ∷ ps) = false

-- Purge
unfoldable pub purge : (Bytes → Bool) → Message → List CacheFile → List CacheFile
unfolding walk prefixes target_prefix
purge removable m files =
    if str_eq m.type (codes "all")
    then walk removable true [] files
    else if is_empty_list (prefixes m.hosts (target_prefix m))
    then files
    else walk removable false (prefixes m.hosts (target_prefix m)) files
