-- ===== src/SelfUpdate/Examples.antt =====
-- An update from the binary `a` to `b`, run.
use brisk.Prelude.{
  pos, negsuc, ◌++◌, Bytes, codes, ◌≡◌, refl, Option, none, some, Bool, true, false, [], ◌∷◌, ◌⊎◌,
  arith, str_eq,
}
use brisk.SelfUpdate.{
  Files, Plan, works, fails, apply, marker_text, scan_marker, verify_binary, hex_lower,
}
use brisk.SelfUpdate.Recovery.{
  apply-atomic, apply-rolled_back, failing_boots, verify_binary_sound, IsConfigured,
}

abbrev installed : Files
installed = record { binary = some (codes "a"); prev = none; staged = none; marker = none }

abbrev all_work : Plan
all_work = record {
  write_new = works;
  read_binary = works;
  write_prev = works;
  write_marker = works;
  rename = works;
}

-- the disk fills up while the marker is written
abbrev torn : Plan
torn = record all_work { write_marker = fails (some (codes "v")) }

apply-atomic_example :
    let (g, should_exit) = apply torn (codes "b") (codes "v2") installed in
    ((should_exit ≡ true)
      × (g.binary ≡ some (codes "b"))
      × (g.prev ≡ some (codes "a"))
      × (g.marker ≡ some (marker_text (codes "v2") 0)))
    ⊎ ((should_exit ≡ false) × (g.binary ≡ some (codes "a")))
apply-atomic_example = apply-atomic torn (codes "b") (codes "v2") installed (codes "a") refl

exits : (apply all_work (codes "b") (codes "v2") installed).1 ≡ true
unfolding apply
exits = refl

-- what Sscanf makes of markers that the agent does not write
scan_oddities :
    (scan_marker (10 ∷ codes "1") ≡ ([], pos 0))
    × (scan_marker (codes "v" ++ (10 ∷ codes " +7 x")) ≡ (codes "v", pos 7))
    × (scan_marker (codes "v" ++ (10 ∷ codes "-2")) ≡ (codes "v", negsuc 1))
    × (scan_marker (codes "v 5") ≡ (codes "v", pos 0))
unfolding scan_marker
scan_oddities = (refl, refl, refl, refl)

-- three failing boots
apply-rolled_back_example :
    let g = (apply all_work (codes "b") (codes "v2") installed).0 in
    (failing_boots 3 3 g ≡ (record g { binary = some (codes "a"); marker = none }, true))
    × (failing_boots 3 1 g ≡ (record g { marker = some (marker_text (codes "v2") 1) }, false))
apply-rolled_back_example =
    apply-rolled_back all_work (codes "b") (codes "v2") installed (codes "a") 2 refl
      ((λ e. cc), (refl, (refl, tt))) (omega arith) exits 1 (omega arith)

-- a text decodes to 32 bytes if it has 32
abbrev decoded : Bytes → Option Bytes
decoded [] = none
decoded (c ∷ s) = some (c ∷ s)

abbrev key : Bytes
key = codes "0123456789abcdef0123456789abcdef"

abbrev signed_with : Bytes → Bytes → Bytes → Bool
signed_with k sum sig = str_eq sum sig

accepted :
    verify_binary
      (λ s. s)
      decoded
      signed_with
      (codes "REPLACE" ∷ key ∷ [])
      (codes "b")
      (codes "62")
      (codes "b")
    ≡ true
unfolding verify_binary hex_lower str_eq
accepted = refl

verify_binary_sound_example :
    (hex_lower (codes "b") ≡ codes "62")
    × ((sig : Bytes) × (decoded (codes "b") ≡ some sig)
        × ((k : Bytes) × IsConfigured (λ s. s) decoded signed_with (codes "REPLACE" ∷ key ∷ []) k
            × (signed_with k (codes "b") sig ≡ true)))
verify_binary_sound_example =
    verify_binary_sound (λ s. s) decoded signed_with (codes "REPLACE" ∷ key ∷ []) (codes "b")
      (codes "62") (codes "b") accepted
