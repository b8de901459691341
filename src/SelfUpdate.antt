-- ===== src/SelfUpdate.antt =====
-- The agent's self-update, brisk-agent/selfupdate/update.go, verify.go and keys.go: the four files that it
-- touches, the installation and the check at boot. Any file operation can fail, and a write that
-- fails leaves any content behind; a rename is atomic. The hash, base64 and ed25519 of the standard
-- library are parameters, and so are the configured keys.
pub mod Marker
pub mod Recovery
mod Examples
use brisk.Prelude.{
  ℕ, zero, suc, ◌/◌, ◌%◌, ◌+◌, ◌-◌, ◌^◌, ◌||◌, ℤ, pos, negsuc, leb_ℤ, is_digit, parse_int64, Bytes,
  codes, str_eq, Option, none, some, Bool, true, false, ◌&&◌, List, [], ◌∷◌, ◌++◌, leb, ◌==◌,
  if◌then◌else◌, any, length, is_space, format_int, opt_or,
}

-- the contents at the paths Binary, Prev, New and Marker
pub record Files : Type 0 where
  pub binary : Option Bytes
  pub prev : Option Bytes
  pub staged : Option Bytes
  pub marker : Option Bytes

-- What a file operation does: it works, or it fails and leaves this content.
pub data Outcome : Type 0 where
  works : Outcome
  fails : Option Bytes → Outcome

-- os.WriteFile
abbrev pub written : Outcome → Bytes → Option Bytes
written works text = some text
written (fails junk) text = junk

abbrev pub did : Outcome → Bool
did works = true
did (fails junk) = false

-- the outcomes of the five operations of Apply
pub record Plan : Type 0 where
  pub write_new : Outcome
  pub read_binary : Outcome
  pub write_prev : Outcome
  pub write_marker : Outcome
  pub rename : Outcome

abbrev pub is_some {ℓ} : {A : Type ℓ} → Option A → Bool
is_some none = false
is_some (some a) = true

abbrev pub marker_text : Bytes → ℕ → Bytes
marker_text version n = version ++ (10 ∷ format_int n)

-- os.Rename(p.New, p.Binary); it fails too if there is nothing to rename
unfoldable pub rename_new : Outcome → Files → Files × Bool
rename_new works f =
    if is_some f.staged then (record f { binary = f.staged; staged = none }, true) else (f, false)
rename_new (fails junk) f = (f, false)

unfoldable pub install_marker : Plan → Bytes → Files → Files × Bool
unfolding rename_new
install_marker plan version f =
    let g = record f { marker = written plan.write_marker (marker_text version 0) } in
    if did plan.write_marker then rename_new plan.rename g else (g, false)

unfoldable pub install_backup : Plan → Bytes → Bytes → Files → Files × Bool
unfolding install_marker
install_backup plan version cur f =
    let g = record f { prev = written plan.write_prev cur } in
    if did plan.write_prev then install_marker plan version g else (g, false)

abbrev pub backup_of : Plan → Bytes → Option Bytes → Files → Files × Bool
backup_of plan version none f = (f, false)
backup_of plan version (some cur) f =
    if did plan.read_binary then install_backup plan version cur f else (f, false)

-- Apply: the files, and shouldExit
unfoldable pub apply : Plan → Bytes → Bytes → Files → Files × Bool
unfolding install_backup
apply plan new version f =
    let g = record f { staged = written plan.write_new new } in
    if did plan.write_new then backup_of plan version g.binary g else (g, false)

-- fmt.Sscanf(text, "%s\n%d", &version, &n) on ASCII: what it cannot read keeps its zero value.
-- The text after any blanks, or none at a newline, where the scan ends.
unfoldable pub skip_blanks : Bytes → Option Bytes
skip_blanks [] = some []
skip_blanks (c ∷ s) =
    let rest = skip_blanks s in if c == 10 then none else if is_space c then rest else some (c ∷ s)

-- the text up to a white space
unfoldable pub token : Bytes → Bytes × Bytes
token [] = ([], [])
token (c ∷ s) = let (h, t) = token s in if is_space c then ([], c ∷ s) else (c ∷ h, t)

-- the newline of the format, which the end of the text matches too
unfoldable pub match_newline : Bytes → Option Bytes
match_newline [] = some []
match_newline (c ∷ s) =
    let rest = match_newline s in if c == 10 then some s else if is_space c then rest else none

unfoldable pub digits : Bytes → Bytes
digits [] = []
digits (c ∷ s) = let rest = digits s in if is_digit c then c ∷ rest else []

-- a sign and the digits after it
abbrev pub number_token : Bytes → Bytes
number_token [] = []
number_token (c ∷ s) = if c == b'-' || c == b'+' then c ∷ digits s else digits (c ∷ s)

abbrev pub scan_digits : Option Bytes → ℤ
scan_digits none = pos 0
scan_digits (some s) = opt_or (parse_int64 (number_token s)) (pos 0)

abbrev pub scan_number : Option Bytes → ℤ
scan_number none = pos 0
scan_number (some s) = scan_digits (skip_blanks s)

abbrev pub scan_version : Option Bytes → Bytes × ℤ
scan_version none = ([], pos 0)
scan_version (some []) = ([], pos 0)
scan_version (some (c ∷ s)) =
    let (version, rest) = token (c ∷ s) in (version, scan_number (match_newline rest))

unfoldable pub scan_marker : Bytes → Bytes × ℤ
unfolding skip_blanks token match_newline digits parse_int64
scan_marker text = scan_version (skip_blanks text)

-- n + 1 of an int of 64 bits
abbrev pub next_int : ℤ → ℤ
next_int (pos n) = if n == 2 ^ 63 - 1 then negsuc (2 ^ 63 - 1) else pos (n + 1)
next_int (negsuc zero) = pos 0
next_int (negsuc (suc n)) = negsuc n

-- fmt.Sprintf("%s\n%d", version, n)
abbrev pub marker_of : Bytes → ℤ → Bytes
marker_of version (pos n) = marker_text version n
marker_of version (negsuc n) = version ++ (10 ∷ b'-' ∷ format_int (suc n))

-- _ = os.WriteFile(p.Binary, prev, …), where .prev could be read
abbrev pub restored : Outcome → Option Bytes → Option Bytes → Option Bytes
restored o none old = old
restored o (some prev) old = written o prev

-- os.ReadFile
abbrev pub read_file : Bool → Option Bytes → Option Bytes
read_file readable text = if readable then text else none

-- the outcomes of a boot's file operations: of its two reads, its write and its removal
pub record Boot : Type 0 where
  pub read_marker_works : Bool
  pub read_prev_works : Bool
  pub write : Outcome
  pub remove_works : Bool

abbrev pub without_marker : Boot → Files → Files
without_marker b f = if b.remove_works then record f { marker = none } else f

abbrev pub retry_or_roll_back : Boot → ℕ → Bytes × ℤ → Files → Files × Bool
retry_or_roll_back b max_restarts scanned f =
    let (version, n) = scanned in
    if leb_ℤ (pos max_restarts) (next_int n)
    then (
      without_marker b
          (record f { binary = restored b.write (read_file b.read_prev_works f.prev) f.binary }),
      true,
    )
    else (record f { marker = written b.write (marker_of version (next_int n)) }, false)

abbrev pub check_marked : Boot → ℕ → Bool → Option Bytes → Files → Files × Bool
check_marked b max_restarts healthy none f = (f, false)
check_marked b max_restarts true (some text) f = (without_marker b f, false)
check_marked b max_restarts false (some text) f =
    retry_or_roll_back b max_restarts (scan_marker text) f

-- SelfCheckOnStart, with the result of check(): the files, and rolledBack
unfoldable pub self_check : Boot → ℕ → Bool → Files → Files × Bool
unfolding scan_marker
self_check b max_restarts healthy f =
    check_marked b max_restarts healthy (read_file b.read_marker_works f.marker) f

-- the digit of a number below 16
abbrev pub hex_digit : ℕ → ℕ
hex_digit n = if leb n 9 then 48 + n else 87 + n

unfoldable pub hex_lower : Bytes → Bytes
hex_lower [] = []
hex_lower (c ∷ s) = hex_digit (c / 16) ∷ hex_digit (c % 16) ∷ hex_lower s

-- VerifyBinary
module _ (sha256 : Bytes → Bytes) (decode : Bytes → Option Bytes)
    (verify : Bytes → Bytes → Bytes → Bool) where
  -- a configured key, where it decodes to 32 bytes
  abbrev pub key_of : Option Bytes → List Bytes
  key_of none = []
  key_of (some raw) = if length raw == 32 then raw ∷ [] else []

  unfoldable pub trusted_keys : List Bytes → List Bytes
  trusted_keys [] = []
  trusted_keys (s ∷ ss) = key_of (decode s) ++ trusted_keys ss

  abbrev pub signed_by_any : List Bytes → Bytes → Option Bytes → Bool
  signed_by_any keys sum none = false
  signed_by_any keys sum (some sig) = any (λ k. verify k sum sig) keys

  -- with the texts of trustedKeysB64 as `configured`
  unfoldable pub verify_binary : List Bytes → Bytes → Bytes → Bytes → Bool
  unfolding hex_lower trusted_keys
  verify_binary configured new want_sha_hex sig64 =
      if str_eq (hex_lower (sha256 new)) want_sha_hex
      then signed_by_any (trusted_keys configured) (sha256 new) (decode sig64)
      else false
