-- ===== src/Purge/Examples.antt =====
-- The slices of one video on two hosts.
use brisk.Prelude.{
  codes, ◌≡◌, ◌≢◌, refl, some, true, false, List, [], ◌∷◌, ◌++◌, All, In, first, later, has_prefix,
  str_eq, str_eq_iff, cut, strip,
}
use brisk.Purge.{Message, CacheFile, purge, read_cache_key, contains, take_bytes}
use brisk.Purge.Match.{bare_star, purge-other_host, purge-slices}

abbrev by_path : Message
by_path = record {
  type = codes "url";
  hosts = codes "a" ∷ [];
  target = codes "v.mp4*";
  job_id = 1;
  zone_id = 1;
}

abbrev slice : CacheFile
slice = record {
  path = codes "/c/1";
  content = some (0 ∷ 10 ∷ codes "KEY: a/v.mp40-9" ++ (10 ∷ codes "x"));
}

abbrev foreign : CacheFile
foreign = record {
  path = codes "/c/2";
  content = some (0 ∷ 10 ∷ codes "KEY: b/v.mp40-9" ++ (10 ∷ codes "x"));
}

abbrev cache : List CacheFile
cache = slice ∷ foreign ∷ []

slice_key : read_cache_key slice.content ≡ some (codes "a" ++ (codes "/v.mp4" ++ codes "0-9"))
unfolding read_cache_key take_bytes cut strip
slice_key = refl

foreign_key : read_cache_key foreign.content ≡ some (codes "b" ++ codes "/v.mp40-9")
unfolding read_cache_key take_bytes cut strip
foreign_key = refl

not_all : codes "url" ≢ codes "all"
unfolding str_eq
not_all e = let k : false ≡ true = (str_eq_iff (codes "url") (codes "all")).1 e in cc

purge-slices_example : All (λ x. x ≢ slice) (purge (λ path. true) by_path cache)
unfolding contains has_prefix
purge-slices_example =
    purge-slices (λ path. true) by_path cache slice (codes "a") (codes "/v.mp4") (codes "0-9")
      not_all (bare_star (codes "v.mp4") refl refl refl) (first refl) (λ e. cc) refl refl slice_key

hosts_apart : codes "a" ≢ codes "b"
unfolding str_eq
hosts_apart e = let k : false ≡ true = (str_eq_iff (codes "a") (codes "b")).1 e in cc

purge-other_host_example : In foreign (purge (λ path. true) by_path cache)
purge-other_host_example =
    purge-other_host (λ path. true) by_path cache foreign (codes "b") (codes "v.mp40-9") not_all
      (refl, tt) ((refl, tt), tt) (hosts_apart, tt) (later (first refl)) foreign_key
