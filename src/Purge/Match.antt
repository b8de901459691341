-- ===== src/Purge/Match.antt =====
-- Proofs about the files that Purge of brisk-agent/purge/purge.go removes.
use brisk.Prelude.{
  ◌≡◌, ◌≢◌, refl, sym, ◌∙◌, ap, subst, Bytes, codes, str_eq, str_eq_iff, has_prefix,
  has_prefix-append, some, Bool, true, false, ◌&&◌, ◌||◌, List, [], ◌∷◌, ◌++◌, arith, ◌==◌, any,
  All, In, first, later, Bool-cases, inl, inr,
}
use brisk.Purge.{
  Message, CacheFile, with_slash, trim_star, target_prefix, prefixes, contains, read_cache_key,
  file_matches, walk, is_empty_list, purge,
}

-- a host holds no slash
abbrev pub IsHost : Bytes → Type 0
IsHost = All (λ c. (c == b'/') ≡ false)

-- A prefix with a slash after the host begins a key of another host only if the hosts are one.
has_prefix-host :
    (h g t rest : Bytes)
    → IsHost h
    → IsHost g
    → has_prefix (g ++ (b'/' ∷ rest)) (h ++ (b'/' ∷ t)) ≡ true
    → h ≡ g
unfolding has_prefix
has_prefix-host [] [] t rest hh hg e = refl
has_prefix-host [] (d ∷ g) t rest hh hg e = absurd (ground (arith, e, hg.0))
has_prefix-host (c ∷ h) [] t rest hh hg e = absurd (ground (arith, e, hh.0))
has_prefix-host (c ∷ h) (d ∷ g) t rest hh hg e =
    ground (arith, e, has_prefix-host h g t rest hh.1 hg.1)

no_prefix :
    (g t rest : Bytes) (hosts : List Bytes)
    → IsHost g
    → All IsHost hosts
    → All (λ h. h ≢ g) hosts
    → any (λ pre. has_prefix (g ++ (b'/' ∷ rest)) pre) (prefixes hosts (b'/' ∷ t)) ≡ false
unfolding prefixes
no_prefix g t rest [] hg hs ne = refl
no_prefix g t rest (h ∷ hs) hg all ne =
    ground (arith, has_prefix-host h g t rest all.0 hg, ne.0, no_prefix g t rest hs hg all.1 ne.1)

trim_star-slash : (s : Bytes) → (t : Bytes) × (trim_star (b'/' ∷ s) ≡ b'/' ∷ t)
unfolding trim_star
trim_star-slash [] = ([], refl)
trim_star-slash (c ∷ s) = (_, refl)

with_slash-slash : (s : Bytes) → (t : Bytes) × (with_slash s ≡ b'/' ∷ t)
unfolding has_prefix
with_slash-slash [] = ([], refl)
with_slash-slash (c ∷ s) = elim (Bool-cases (c == b'/')) [
  | inl e ↦ (s, ground (arith, e))
  | inr e ↦ (c ∷ s, ground (arith, e))
]

trimmed_slash : (s : Bytes) → (t : Bytes) × (trim_star (with_slash s) ≡ b'/' ∷ t)
trimmed_slash s =
    let (u, e) = with_slash-slash s in let (t, q) = trim_star-slash u in (t, ap trim_star e ∙ q)

target_prefix-slash : (m : Message) → (t : Bytes) × (target_prefix m ≡ b'/' ∷ t)
unfolding target_prefix
target_prefix-slash m = elim (Bool-cases (str_eq m.type (codes "zone") || str_eq m.target [])) [
  | inl e ↦ rw e (trimmed_slash (codes "/"))
  | inr e ↦ rw e (trimmed_slash m.target)
]

In-walk :
    (removable : Bytes → Bool) (match_all : Bool) (pres : List Bytes) (f : CacheFile)
    (fs : List CacheFile)
    → In f fs
    → file_matches match_all pres f ≡ false
    → In f (walk removable match_all pres fs)
unfolding walk
In-walk removable match_all pres f [] i h = elim i [ ]
In-walk removable match_all pres f (g ∷ fs) (first p) h =
    let q : file_matches match_all pres g ≡ false =
      subst (λ (x : CacheFile). file_matches match_all pres x ≡ false) p h in
    rw q (first p)
In-walk removable match_all pres f (g ∷ fs) (later i) h =
    elim (Bool-cases (file_matches match_all pres g && removable g.path)) [
      | inl hit ↦ rw hit (In-walk removable match_all pres f fs i h)
      | inr miss ↦ rw miss (later (In-walk removable match_all pres f fs i h))
    ]

unmatched :
    (pres : List Bytes) (f : CacheFile) (key : Bytes)
    → read_cache_key f.content ≡ some key
    → any (λ pre. has_prefix key pre) pres ≡ false
    → file_matches false pres f ≡ false
unfolding file_matches
unmatched pres f key e h = rw (e, h) (ground arith)

-- A purge that is not of the whole cache leaves every file whose key is a host that the message
-- does not name, a slash and any text, where no host holds a slash.
pub purge-other_host :
    (removable : Bytes → Bool) (m : Message) (files : List CacheFile) (f : CacheFile)
    (g rest : Bytes)
    → m.type ≢ codes "all"
    → IsHost g
    → All IsHost m.hosts
    → All (λ h. h ≢ g) m.hosts
    → In f files
    → read_cache_key f.content ≡ some (g ++ (b'/' ∷ rest))
    → In f (purge removable m files)
unfolding purge
purge-other_host removable m files f g rest part hg hosts ne i key =
    let (t, slash) = target_prefix-slash m in
    let apart : str_eq m.type (codes "all") ≡ false =
      ground (arith, str_eq_iff m.type (codes "all"), part) in
    let kept : In f (walk removable false (prefixes m.hosts (target_prefix m)) files) =
      In-walk removable false _ f files i (
        unmatched _ f (g ++ (b'/' ∷ rest)) key
          (rw slash (no_prefix g t rest m.hosts hg hosts ne))) in
    rw apart (elim (Bool-cases (is_empty_list (prefixes m.hosts (target_prefix m)))) [
      | inl none_left ↦ rw none_left i
      | inr some_left ↦ rw some_left kept
    ])

append_assoc : (a b c : Bytes) → (a ++ b) ++ c ≡ a ++ (b ++ c)
append_assoc [] b c = refl
append_assoc (x ∷ a) b c = ap (λ (s : Bytes). x ∷ s) (append_assoc a b c)

named_prefix :
    (h target range : Bytes) (hosts : List Bytes)
    → In h hosts
    → str_eq h [] ≡ false
    → any (λ pre. has_prefix (h ++ (target ++ range)) pre) (prefixes hosts target) ≡ true
unfolding prefixes
named_prefix h target range [] i ne = elim i [ ]
named_prefix h target range (g ∷ gs) (first p) ne =
    let hit : has_prefix (h ++ (target ++ range)) (h ++ target) ≡ true =
      ap (λ (s : Bytes). has_prefix s (h ++ target)) (sym (append_assoc h target range))
      ∙ has_prefix-append (h ++ target) range in
    rw (← p, ne, hit) refl
named_prefix h target range (g ∷ gs) (later i) ne =
    ground (arith, named_prefix h target range gs i ne)

no_empty : (ps : List Bytes) (p : Bytes → Bool) → any p ps ≡ true → is_empty_list ps ≢ true
no_empty [] p h e = cc
no_empty (q ∷ ps) p h e = cc

walk-removed :
    (removable : Bytes → Bool) (match_all : Bool) (pres : List Bytes) (f : CacheFile)
    (fs : List CacheFile)
    → file_matches match_all pres f ≡ true
    → removable f.path ≡ true
    → All (λ x. x ≢ f) (walk removable match_all pres fs)
unfolding walk
walk-removed removable match_all pres f [] h r = tt
walk-removed removable match_all pres f (g ∷ fs) h r =
    let rest = walk-removed removable match_all pres f fs h r in
    elim (Bool-cases (file_matches match_all pres g && removable g.path)) [
      | inl hit ↦ rw hit rest
      | inr miss ↦ rw miss (
        (λ e.
            let k : file_matches match_all pres f && removable f.path ≡ false =
              subst (λ (x : CacheFile). file_matches match_all pres x && removable x.path ≡ false) e
                miss in
            ground (arith, k, h, r)),
        rest,
      )
    ]

-- the path that a message means: all of a zone, or its target, with a slash in front and without a
-- star at the end
pub data Means (m : Message) (path : Bytes) : Type 0 where
  whole_zone : m.type ≡ codes "zone" → path ≡ codes "/" → Means m path
  no_target : m.target ≡ [] → path ≡ codes "/" → Means m path
  exact : (s : Bytes) → path ≡ b'/' ∷ s → m.target ≡ b'/' ∷ s → Means m path
  exact_star : (s : Bytes) → path ≡ b'/' ∷ s → m.target ≡ b'/' ∷ (s ++ codes "*") → Means m path
  bare :
      (s : Bytes) → has_prefix s (codes "/") ≡ false → path ≡ b'/' ∷ s → m.target ≡ s → Means m path
  bare_star :
      (s : Bytes)
      → has_prefix s (codes "/") ≡ false
      → path ≡ b'/' ∷ s
      → m.target ≡ s ++ codes "*"
      → Means m path

abbrev Begins : Bytes → Bytes → Type 0
Begins pre s = (more : Bytes) × (s ≡ pre ++ more)

append_nil : (a : Bytes) → a ++ [] ≡ a
append_nil [] = refl
append_nil (x ∷ a) = ap (λ (s : Bytes). x ∷ s) (append_nil a)

trim_star-Begins : (s : Bytes) → Begins (trim_star s) s
unfolding trim_star
trim_star-Begins [] = ([], refl)
trim_star-Begins (c ∷ []) = elim (Bool-cases (c == b'*')) [
  | inl e ↦ rw e (c ∷ [], refl)
  | inr e ↦ rw e ([], refl)
]
trim_star-Begins (c ∷ (d ∷ s)) =
    let (more, e) = trim_star-Begins (d ∷ s) in (more, ap (λ (t : Bytes). c ∷ t) e)

trim_star-append : (s : Bytes) → trim_star (s ++ codes "*") ≡ s
unfolding trim_star
trim_star-append [] = refl
trim_star-append (c ∷ []) = refl
trim_star-append (c ∷ (d ∷ s)) = ap (λ (t : Bytes). c ∷ t) (trim_star-append (d ∷ s))

Means-slash : (m : Message) (path : Bytes) → Means m path → (s : Bytes) × (path ≡ b'/' ∷ s)
Means-slash m path (whole_zone z e) = ([], e)
Means-slash m path (no_target z e) = ([], e)
Means-slash m path (exact s e t) = (s, e)
Means-slash m path (exact_star s e t) = (s, e)
Means-slash m path (bare s b e t) = (s, e)
Means-slash m path (bare_star s b e t) = (s, e)

with_slash_absolute : (s : Bytes) → with_slash (b'/' ∷ s) ≡ b'/' ∷ s
unfolding has_prefix
with_slash_absolute s = refl

bare-append :
    (s : Bytes) → has_prefix s (codes "/") ≡ false → has_prefix (s ++ codes "*") (codes "/") ≡ false
unfolding has_prefix
bare-append [] h = refl
bare-append (c ∷ s) h = ground (arith, h)

with_slash_bare : (s : Bytes) → has_prefix s (codes "/") ≡ false → with_slash s ≡ b'/' ∷ s
with_slash_bare s h = rw h refl

Begins-at : (p q s : Bytes) → p ≡ q → Begins q s → Begins p s
Begins-at p q s e (more, f) = (more, f ∙ ap (λ (t : Bytes). t ++ more) (sym e))

whole_prefix : (p s : Bytes) → p ≡ s → Begins p s
whole_prefix p s e = ([], sym e ∙ sym (append_nil p))

-- the prefix where the target is used
prefix_of_target :
    (m : Message) (path : Bytes)
    → (str_eq m.type (codes "zone") || str_eq m.target []) ≡ false
    → Means m path
    → Begins (trim_star (with_slash m.target)) path
prefix_of_target m path part (whole_zone z e) =
    absurd (ground (arith, part, (str_eq_iff m.type (codes "zone")).1 z))
prefix_of_target m path part (no_target z e) =
    absurd (ground (arith, part, (str_eq_iff m.target []).1 z))
prefix_of_target m path part (exact s e t) =
    Begins-at _ (trim_star (b'/' ∷ s)) path
      (ap (λ (u : Bytes). trim_star (with_slash u)) t ∙ ap trim_star (with_slash_absolute s))
      (subst (Begins (trim_star (b'/' ∷ s))) (sym e) (trim_star-Begins (b'/' ∷ s)))
prefix_of_target m path part (exact_star s e t) = whole_prefix _ path (
    ap (λ (u : Bytes). trim_star (with_slash u)) t
    ∙ (ap trim_star (with_slash_absolute (s ++ codes "*")) ∙ (trim_star-append (b'/' ∷ s) ∙ sym e)))
prefix_of_target m path part (bare s b e t) =
    Begins-at _ (trim_star (b'/' ∷ s)) path
      (ap (λ (u : Bytes). trim_star (with_slash u)) t ∙ ap trim_star (with_slash_bare s b))
      (subst (Begins (trim_star (b'/' ∷ s))) (sym e) (trim_star-Begins (b'/' ∷ s)))
prefix_of_target m path part (bare_star s b e t) = whole_prefix _ path (
    ap (λ (u : Bytes). trim_star (with_slash u)) t
    ∙ (ap trim_star (with_slash_bare (s ++ codes "*") (bare-append s b))
        ∙ (trim_star-append (b'/' ∷ s) ∙ sym e)))

root_prefix : trim_star (with_slash (codes "/")) ≡ codes "/"
unfolding trim_star has_prefix
root_prefix = refl

-- whatever a message means, the code's prefix begins it
target_prefix-Begins : (m : Message) (path : Bytes) → Means m path → Begins (target_prefix m) path
unfolding target_prefix
target_prefix-Begins m path h =
    elim (Bool-cases (str_eq m.type (codes "zone") || str_eq m.target [])) [
      | inl all_of ↦
          rw all_of
            (let (s, e) = Means-slash m path h in Begins-at _ (codes "/") path root_prefix (s, e))
      | inr part ↦ rw part (prefix_of_target m path part h)
    ]

-- A purge that is not of the whole cache removes every slice of the path it means, which is a slash
-- for a whole zone or an empty target, and else the target with a slash in front and, where it ends
-- with a star, without the star: with a non-empty host named in the message and a file outside a
-- temp directory that can be removed, whose key is the host, the path and any text after it, no
-- file left is that file.
pub purge-slices :
    (removable : Bytes → Bool) (m : Message) (files : List CacheFile) (f : CacheFile)
    (h path range : Bytes)
    → m.type ≢ codes "all"
    → Means m path
    → In h m.hosts
    → h ≢ []
    → contains f.path (codes "/temp/") ≡ false
    → removable f.path ≡ true
    → read_cache_key f.content ≡ some (h ++ (path ++ range))
    → All (λ x. x ≢ f) (purge removable m files)
unfolding purge
purge-slices removable m files f h path range part means i ne no_temp r key =
    let (more, begins) = target_prefix-Begins m path means in
    let longer : path ++ range ≡ target_prefix m ++ (more ++ range) =
      ap (λ (s : Bytes). s ++ range) begins ∙ append_assoc (target_prefix m) more range in
    let apart : str_eq m.type (codes "all") ≡ false =
      ground (arith, str_eq_iff m.type (codes "all"), part) in
    let named : str_eq h [] ≡ false = ground (arith, str_eq_iff h [], ne) in
    let some_prefix = named_prefix h (target_prefix m) (more ++ range) m.hosts i named in
    let hit : file_matches false (prefixes m.hosts (target_prefix m)) f ≡ true =
      unfold file_matches in rw (no_temp, key, longer, some_prefix) refl in
    let gone = walk-removed removable false _ f files hit r in
    rw apart (elim (Bool-cases (is_empty_list (prefixes m.hosts (target_prefix m)))) [
      | inl none_left ↦
          absurd (no_empty (prefixes m.hosts (target_prefix m)) _ some_prefix none_left)
      | inr some_left ↦ rw some_left gone
    ])
