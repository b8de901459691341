-- ===== src/CacheRender.antt =====
-- How the cache settings of a zone become directives of nginx: brisk-agent/nginx/cache.go. Text is
-- ASCII; a Go int is one of 64 bits.
mod Ttl
mod Key
mod Examples
use brisk.Prelude.{
  ℕ, zero, suc, ◌+◌, ◌*◌, ◌%◌, ◌^◌, Bytes, codes, str_eq, has_prefix, strip, split_on, join,
  trim_space, to_lower, format_int, parse_int, Option, none, some, Bool, true, false, ◌&&◌, ◌||◌,
  not, List, [], ◌∷◌, ◌++◌, map, keep, ltb, ◌==◌, if◌then◌else◌, is_space,
}
use brisk.CacheRender.Ttl.{browser_cc}
use brisk.Purge.{is_token_char, contains}

pub record ZoneCacheSettings : Type 0 where
  pub smart : Bool
  pub edge_mode : Bytes
  pub edge_ttl : Bytes
  pub browser_mode : Bytes
  pub browser_ttl : Bytes
  pub cache_errors : Bool
  pub vary_webp : Bool
  pub vary_device : Bool
  pub vary_country : Bool
  pub vary_cookie : Bytes
  pub vary_query_string : Bool
  pub vary_headers : Bytes
  pub strip_cookies : Bool
  pub large_object : Bool
  pub stale_offline : Bool
  pub stale_updating : Bool

pub record CacheRender : Type 0 where
  pub static_key : Bytes
  pub html_key : Bytes
  pub static_valid : Bytes
  pub html_valid : Bytes
  pub stale : Bytes
  pub static_ignore : Bytes
  pub static_browser_cc : Bytes
  pub html_browser_cc : Bytes
  pub cache_errors : Bool
  pub html_ignore : Bytes
  pub no_cache_static : Bool
  pub no_cache_html : Bool
  pub slice : Bool
  pub need_webp_map : Bool
  pub need_device_map : Bool

abbrev pub def_static_key : Bytes
def_static_key = codes "$host$uri"

abbrev pub def_html_key : Bytes
def_html_key = codes "$host$request_uri"

abbrev pub def_stale : Bytes
def_stale = codes "error timeout updating http_500 http_502 http_503 http_504"

abbrev pub def_static_cc : Bytes
def_static_cc = codes "public, max-age=2592000"

abbrev pub default_cache_render : CacheRender
default_cache_render = record {
  static_key = def_static_key;
  html_key = def_html_key;
  static_valid = codes "200 301 302 30d";
  html_valid = codes "200 301 302 10m";
  stale = def_stale;
  static_ignore = codes "Set-Cookie Cache-Control Expires Vary";
  static_browser_cc = def_static_cc;
  html_browser_cc = [];
  cache_errors = false;
  html_ignore = [];
  no_cache_static = false;
  no_cache_html = false;
  slice = false;
  need_webp_map = false;
  need_device_map = false;
}

unfoldable pub sanitize_token : Bytes → Bytes
unfolding trim_space
sanitize_token s = keep is_token_char (trim_space s)

-- strings.ReplaceAll(s, "-", "_") on one byte
abbrev pub underscore : ℕ → ℕ
underscore c = if c == b'-' then b'_' else c

unfoldable pub header_var : Bytes → Bytes
unfolding to_lower sanitize_token
header_var h = to_lower (map underscore (sanitize_token h))

unfoldable pub split_list : Bytes → List Bytes
unfolding split_on trim_space str_eq
split_list s = keep (λ p. not (str_eq p [])) (map trim_space (split_on b',' s))

abbrev pub given : Bool → Bytes → Bytes
given b s = if b then s else []

unfoldable pub header_keys : List Bytes → Bytes
unfolding header_var
header_keys [] = []
header_keys (h ∷ hs) = codes "$http_" ++ (header_var h ++ header_keys hs)

abbrev pub cookie_key : Bytes → Bytes
cookie_key [] = []
cookie_key (c ∷ s) = codes "$cookie_" ++ (c ∷ s)

-- what the settings add to both keys
unfoldable pub vary_key : ZoneCacheSettings → Bytes
unfolding header_keys split_list sanitize_token
vary_key cs =
    given cs.vary_webp (codes "$brisk_webp")
    ++ (given cs.vary_device (codes "$brisk_device")
        ++ (given cs.vary_country (codes "$brisk_country")
            ++ (cookie_key (sanitize_token cs.vary_cookie)
                ++ header_keys (split_list cs.vary_headers))))

unfoldable pub with_keys : ZoneCacheSettings → CacheRender → CacheRender
unfolding vary_key
with_keys cs cr = record cr {
  need_webp_map = cs.vary_webp;
  need_device_map = cs.vary_device;
  static_key =
      def_static_key ++ (vary_key cs ++ given cs.vary_query_string (codes "$is_args$args"));
  html_key = def_html_key ++ vary_key cs;
}

abbrev pub override_edge : Bytes → CacheRender → CacheRender
override_edge [] cr = cr
override_edge (c ∷ t) cr = record cr {
  static_valid = codes "200 301 302 " ++ (c ∷ t);
  html_valid = codes "200 301 302 " ++ (c ∷ t);
}

unfoldable pub with_edge : ZoneCacheSettings → CacheRender → CacheRender
unfolding str_eq trim_space
with_edge cs cr =
    if str_eq cs.edge_mode (codes "respect_origin")
    then record cr { static_valid = []; html_valid = []; static_ignore = codes "Set-Cookie Vary" }
    else if str_eq cs.edge_mode (codes "override")
    then override_edge (trim_space cs.edge_ttl) cr
    else if str_eq cs.edge_mode (codes "no_cache")
    then record cr { no_cache_static = true; no_cache_html = true }
    else cr

abbrev pub with_smart : ZoneCacheSettings → CacheRender → CacheRender
with_smart cs cr =
    if cs.smart
    then record cr {
      html_valid = cr.static_valid;
      html_ignore = codes "Set-Cookie Cache-Control Expires";
    }
    else if cs.strip_cookies
    then record cr { html_ignore = codes "Set-Cookie" }
    else cr

unfoldable pub stale_flags : Bool → Bool → Bytes
unfolding join
stale_flags true true = def_stale
stale_flags true false = join (codes " ") (
    codes "error"
    ∷ codes "timeout"
    ∷ codes "http_500"
    ∷ codes "http_502"
    ∷ codes "http_503"
    ∷ codes "http_504"
    ∷ [])
stale_flags false true = codes "updating"
stale_flags false false = codes "off"

-- strings.Replace(s, old, new, 1), where `old` is not empty
unfoldable replace_first : Bytes → Bytes → Bytes → Bytes
unfolding strip
replace_first [] old new = []
replace_first (c ∷ s) old new =
    let rest = replace_first s old new in
    elim (strip (c ∷ s) old) [ some t ↦ new ++ t | none ↦ c ∷ rest ]

unfoldable with206 : Bytes → Bytes
unfolding contains replace_first
with206 valid =
    if contains (b' ' ∷ (valid ++ codes " ")) (codes " 206 ")
    then valid
    else replace_first valid (codes "200") (codes "200 206")

unfoldable pub with_slices : ZoneCacheSettings → CacheRender → CacheRender
unfolding with206 str_eq
with_slices cs cr =
    if cs.large_object
    then record cr {
      slice = true;
      static_key = cr.static_key ++ codes "$slice_range";
      static_valid = if str_eq cr.static_valid [] then [] else with206 cr.static_valid;
    }
    else cr

unfoldable pub with_browser : ZoneCacheSettings → CacheRender → CacheRender
unfolding browser_cc
with_browser cs cr = record cr {
  static_browser_cc = browser_cc cs.browser_mode cs.browser_ttl def_static_cc cr.static_valid;
  html_browser_cc = browser_cc cs.browser_mode cs.browser_ttl [] cr.html_valid;
}

abbrev pub with_flags : ZoneCacheSettings → CacheRender → CacheRender
with_flags cs cr = record cr {
  cache_errors = cs.cache_errors;
  stale = stale_flags cs.stale_offline cs.stale_updating;
}

unfoldable pub cache_render_for : Option ZoneCacheSettings → CacheRender
unfolding with_keys with_edge stale_flags with_slices with_browser
cache_render_for none = default_cache_render
cache_render_for (some cs) = with_browser cs (
    with_slices cs
      (with_flags cs (with_smart cs (with_edge cs (with_keys cs default_cache_render)))))
