-- ===== src/CacheRender/Key.antt =====
-- Proofs about the cache keys of brisk-agent/nginx/cache.go.
use brisk.Prelude.{
  ℕ, Bytes, codes, ◌≡◌, refl, leb, sym, ◌≢◌, subst, In, first, later, ap, ◌∙◌, Bool, true, false,
  ◌||◌, ◌&&◌, ◌==◌, Option, none, some, List, [], ◌∷◌, ◌++◌, All, All-of, In-keep, map, arith,
  str_eq, to_lower, trim_space, keep, lower, if◌then◌else◌,
}
use brisk.Purge.{is_token_char}
use brisk.CacheRender.{
  ZoneCacheSettings, CacheRender, cache_render_for, default_cache_render, sanitize_token,
  header_var, header_keys, split_list, cookie_key, given, vary_key, with_keys, with_edge,
  with_smart, with_slices, with_browser, underscore, override_edge,
}

-- what can stand in the name of a header's variable, and of a cookie's
abbrev pub is_header_char : ℕ → Bool
is_header_char c = leb b'a' c && leb c b'z' || leb b'0' c && leb c b'9' || c == b'_'

abbrev pub is_cookie_char : ℕ → Bool
is_cookie_char c = is_header_char c || leb b'A' c && leb c b'Z' || c == b'-'

abbrev pub fixed_names : List Bytes
fixed_names =
    codes "brisk_webp"
    ∷ codes "brisk_device"
    ∷ codes "brisk_country"
    ∷ codes "is_args"
    ∷ codes "args"
    ∷ codes "slice_range"
    ∷ []

-- the names of the variables that may follow
pub data IsVariable (name : Bytes) : Type 0 where
  fixed : In name fixed_names → IsVariable name
  cookie :
      (s : Bytes)
      → name ≡ codes "cookie_" ++ s
      → s ≢ []
      → All (λ c. is_cookie_char c ≡ true) s
      → IsVariable name
  header :
      (s : Bytes)
      → name ≡ codes "http_" ++ s
      → All (λ c. is_header_char c ≡ true) s
      → IsVariable name

-- each name after a dollar sign
abbrev pub variables : List Bytes → Bytes
variables [] = []
variables (n ∷ ns) = b'$' ∷ (n ++ variables ns)

abbrev pub Variables : Bytes → Type 0
Variables s = (names : List Bytes) × (s ≡ variables names) × All IsVariable names

append_assoc : (a b c : Bytes) → (a ++ b) ++ c ≡ a ++ (b ++ c)
append_assoc [] b c = refl
append_assoc (x ∷ a) b c = ap (λ s. x ∷ s) (append_assoc a b c)

empty-Variables : Variables []
empty-Variables = ([], refl, tt)

one_more : (n s : Bytes) → IsVariable n → Variables s → Variables (b'$' ∷ (n ++ s))
one_more n s v (names, e, ok) = (n ∷ names, ap (λ (t : Bytes). b'$' ∷ (n ++ t)) e, (v, ok))

append_nil : (a : Bytes) → a ++ [] ≡ a
append_nil [] = refl
append_nil (x ∷ a) = ap (λ s. x ∷ s) (append_nil a)

last_one : (n : Bytes) → IsVariable n → Variables (b'$' ∷ n)
last_one n v = (n ∷ [], ap (λ (t : Bytes). b'$' ∷ t) (sym (append_nil n)), (v, tt))

Variables-append : (s t : Bytes) → Variables s → Variables t → Variables (s ++ t)
Variables-append s t ([], e, ok) q = subst (λ (u : Bytes). Variables (u ++ t)) (sym e) q
Variables-append s t (n ∷ ns, e, ok) q =
    subst (λ (u : Bytes). Variables (u ++ t)) (sym e)
      (subst Variables (ap (λ (u : Bytes). b'$' ∷ u) (sym (append_assoc n (variables ns) t))) (
        one_more n (variables ns ++ t) ok.0 (Variables-append (variables ns) t (ns, refl, ok.1) q)))

cookie_char : (c : ℕ) → is_token_char c ≡ true → is_cookie_char c ≡ true
cookie_char c h = ground arith

sanitized : (s : Bytes) → All (λ c. is_cookie_char c ≡ true) (sanitize_token s)
unfolding sanitize_token
sanitized s =
    All-of (λ c. is_cookie_char c ≡ true) (keep is_token_char (trim_space s))
      (λ c i. cookie_char c ((In-keep is_token_char (trim_space s)).0 i).1)

char_folded : (c : ℕ) → is_cookie_char c ≡ true → is_header_char (lower (underscore c)) ≡ true
char_folded c h = ground arith

folded :
    (s : Bytes)
    → All (λ c. is_cookie_char c ≡ true) s
    → All (λ c. is_header_char c ≡ true) (to_lower (map underscore s))
unfolding to_lower
folded [] h = tt
folded (c ∷ s) h = (char_folded c h.0, folded s h.1)

header_keys-Variables : (hs : List Bytes) → Variables (header_keys hs)
unfolding header_keys header_var
header_keys-Variables [] = empty-Variables
header_keys-Variables (h ∷ hs) =
    one_more (codes "http_" ++ header_var h) (header_keys hs)
      (header (header_var h) refl (folded (sanitize_token h) (sanitized h)))
      (header_keys-Variables hs)

given-Variables : (b : Bool) (n : Bytes) → Variables n → Variables (given b n)
given-Variables true n h = h
given-Variables false n h = empty-Variables

cookie_key-Variables : (s : Bytes) → All (λ c. is_cookie_char c ≡ true) s → Variables (cookie_key s)
cookie_key-Variables [] h = empty-Variables
cookie_key-Variables (c ∷ s) h =
    last_one (codes "cookie_" ++ (c ∷ s)) (cookie (c ∷ s) refl (λ e. cc) h)

vary_key-Variables : (cs : ZoneCacheSettings) → Variables (vary_key cs)
unfolding vary_key
vary_key-Variables cs =
    Variables-append (given cs.vary_webp (codes "$brisk_webp")) _
      (given-Variables cs.vary_webp _ (last_one (codes "brisk_webp") (fixed (first refl))))
      (Variables-append (given cs.vary_device (codes "$brisk_device")) _
        (given-Variables cs.vary_device _
          (last_one (codes "brisk_device") (fixed (later (first refl)))))
        (Variables-append (given cs.vary_country (codes "$brisk_country")) _
          (given-Variables cs.vary_country _
            (last_one (codes "brisk_country") (fixed (later (later (first refl))))))
          (Variables-append (cookie_key (sanitize_token cs.vary_cookie)) _
            (cookie_key-Variables _ (sanitized cs.vary_cookie))
            (header_keys-Variables (split_list cs.vary_headers)))))

-- a key that only adds variables to another
abbrev pub Extends : Bytes → Bytes → Type 0
Extends base key = (s : Bytes) × (key ≡ base ++ s) × Variables s

abbrev pub KeyedByHost : CacheRender → Type 0
KeyedByHost cr =
    Extends (codes "$host$uri") cr.static_key × Extends (codes "$host$request_uri") cr.html_key

query_args : Variables (codes "$is_args$args")
query_args = (
  codes "is_args" ∷ codes "args" ∷ [],
  refl,
  (
    fixed (later (later (later (first refl)))),
    (fixed (later (later (later (later (first refl))))), tt),
  ),
)

with_keys-KeyedByHost : (cs : ZoneCacheSettings) (cr : CacheRender) → KeyedByHost (with_keys cs cr)
unfolding with_keys
with_keys-KeyedByHost cs cr = (
  (
    _,
    refl,
    Variables-append (vary_key cs) _ (vary_key-Variables cs)
        (given-Variables cs.vary_query_string _ query_args),
  ),
  (_, refl, vary_key-Variables cs),
)

override_edge-KeyedByHost :
    (t : Bytes) (cr : CacheRender) → KeyedByHost cr → KeyedByHost (override_edge t cr)
override_edge-KeyedByHost [] cr h = h
override_edge-KeyedByHost (c ∷ t) cr h = h

if-KeyedByHost :
    (b : Bool) (x y : CacheRender)
    → KeyedByHost x
    → KeyedByHost y
    → KeyedByHost (if b then x else y)
if-KeyedByHost true x y p q = p
if-KeyedByHost false x y p q = q

with_edge-KeyedByHost :
    (cs : ZoneCacheSettings) (cr : CacheRender) → KeyedByHost cr → KeyedByHost (with_edge cs cr)
unfolding with_edge
with_edge-KeyedByHost cs cr h =
    if-KeyedByHost (str_eq cs.edge_mode (codes "respect_origin")) _ _ h (
      if-KeyedByHost (str_eq cs.edge_mode (codes "override")) _ _
        (override_edge-KeyedByHost (trim_space cs.edge_ttl) cr h)
        (if-KeyedByHost (str_eq cs.edge_mode (codes "no_cache")) _ _ h h))

with_smart-KeyedByHost :
    (cs : ZoneCacheSettings) (cr : CacheRender) → KeyedByHost cr → KeyedByHost (with_smart cs cr)
with_smart-KeyedByHost cs cr h =
    if-KeyedByHost cs.smart _ _ h (if-KeyedByHost cs.strip_cookies _ _ h h)

Extends-append :
    (base key more : Bytes) → Extends base key → Variables more → Extends base (key ++ more)
Extends-append base key more (s, e, h) more_ok =
    (s ++ more, ap (λ k. k ++ more) e ∙ append_assoc base s more, Variables-append s more h more_ok)

with_slices-KeyedByHost :
    (cs : ZoneCacheSettings) (cr : CacheRender) → KeyedByHost cr → KeyedByHost (with_slices cs cr)
unfolding with_slices
with_slices-KeyedByHost cs cr (static, html) =
    if-KeyedByHost cs.large_object _ _
      (
        Extends-append (codes "$host$uri") cr.static_key (codes "$slice_range") static (
            last_one (codes "slice_range")
              (fixed (later (later (later (later (later (first refl)))))))),
        html,
      )
      (static, html)

-- Whatever the settings of a zone are, the cookie and header names that a tenant writes included,
-- the two cache keys are $host$uri and $host$request_uri, each followed by variables only: known
-- ones, $cookie_ with a non-empty name of letters, digits, dashes and underscores, or $http_ with
-- small letters, digits and underscores.
pub cache_render_for-KeyedByHost : (o : Option ZoneCacheSettings) → KeyedByHost (cache_render_for o)
unfolding cache_render_for with_browser
cache_render_for-KeyedByHost none = (([], refl, empty-Variables), ([], refl, empty-Variables))
cache_render_for-KeyedByHost (some cs) = with_slices-KeyedByHost cs _ (
    with_smart-KeyedByHost cs _
      (with_edge-KeyedByHost cs _ (with_keys-KeyedByHost cs default_cache_render)))
