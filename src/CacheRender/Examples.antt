-- ===== src/CacheRender/Examples.antt =====
-- The cache settings on small inputs.
use brisk.Prelude.{◌≡◌, refl, [], some, true, false, codes, format_int, has_prefix}
use brisk.CacheRender.{ZoneCacheSettings, cache_render_for}
use brisk.CacheRender.Ttl.{browser_cc}
use brisk.CacheRender.Key.{KeyedByHost, cache_render_for-KeyedByHost}

abbrev settings : ZoneCacheSettings
settings = record {
  smart = true;
  edge_mode = codes "override";
  edge_ttl = codes "1h";
  browser_mode = codes "default";
  browser_ttl = [];
  cache_errors = false;
  vary_webp = true;
  vary_device = false;
  vary_country = false;
  vary_cookie = codes "a;b";
  vary_query_string = true;
  vary_headers = codes "Accept-Language";
  strip_cookies = false;
  large_object = true;
  stale_offline = true;
  stale_updating = true;
}

an_hour : browser_cc (codes "override") (codes " 1h") [] [] ≡ codes "public, max-age=3600"
unfolding browser_cc format_int
an_hour = refl

a_key :
    (cache_render_for (some settings)).static_key
    ≡ codes "$host$uri$brisk_webp$cookie_ab$http_accept_language$is_args$args$slice_range"
unfolding cache_render_for
a_key = refl

sliced : (cache_render_for (some settings)).static_valid ≡ codes "200 206 301 302 1h"
unfolding cache_render_for has_prefix
sliced = refl

cache_render_for-KeyedByHost_example : KeyedByHost (cache_render_for (some settings))
cache_render_for-KeyedByHost_example = cache_render_for-KeyedByHost (some settings)
