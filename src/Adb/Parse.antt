-- ===== src/Adb/Parse.antt =====
-- How the output of adb and of dumpsys is read.
use quest_vd_wired.Common.{
  ℕ, Bool, true, false, ◌&&◌, ◌||◌, not, if◌then◌else◌, Option, none, some, List, [], ◌∷◌, ◌++◌,
  bytes_eq, codes, lines, any_line, trim, words, strip_prefix, starts_with, contains_text,
  to_ascii_lowercase, decimal, is_empty,
}
use quest_vd_wired.Adb.Types.{
  AdbOutput, AdbError, spawn, timeout, wait_failed, containment, read_failed, command_failed,
  device_not_ready, vpn_still_active, ReverseMapping, reverse_mappings,
}

-- A line of `adb reverse --list`: three fields, of which the last two are TCP ports.
abbrev pub three_fields : List (List ℕ) → Option (List ℕ × List ℕ)
three_fields (transport ∷ remote ∷ local ∷ []) =
    if starts_with (codes "tcp:") remote && starts_with (codes "tcp:") local
    then some (remote, local)
    else none
three_fields fields = none

abbrev pub cons_some {ℓ} : {A : Type ℓ} → Option A → List A → List A
cons_some none xs = xs
cons_some (some x) xs = x ∷ xs

unfoldable pub read_reverse_lines : List (List ℕ) → List (List ℕ × List ℕ)
unfolding words strip_prefix
read_reverse_lines [] = []
read_reverse_lines (line ∷ lines) = cons_some (three_fields (words line)) (read_reverse_lines lines)

unfoldable pub parse_reverse_list : List ℕ → List (List ℕ × List ℕ)
unfolding read_reverse_lines lines
parse_reverse_list output = read_reverse_lines (lines output)

-- `format!("tcp:{}", port)`
unfoldable pub tcp : ℕ → List ℕ
unfolding decimal
tcp port = codes "tcp:" ++ decimal port

abbrev pub pair_eq : List ℕ × List ℕ → List ℕ × List ℕ → Bool
pair_eq (a, b) (c, d) = bytes_eq a c && bytes_eq b d

unfoldable pub is_listed : List (List ℕ × List ℕ) → List ℕ × List ℕ → Bool
is_listed [] expected = false
is_listed (actual ∷ rest) expected = pair_eq actual expected || is_listed rest expected

abbrev pub is_any_remote : List ReverseMapping → List ℕ → Bool
is_any_remote [] remote = false
is_any_remote (m ∷ ms) remote = bytes_eq remote (tcp m.remote) || is_any_remote ms remote

-- The listed mappings that the product owns.
unfoldable pub owned : List (List ℕ × List ℕ) → List (List ℕ × List ℕ)
unfolding tcp
owned [] = []
owned ((remote, local) ∷ rest) =
    if is_any_remote reverse_mappings remote then (remote, local) ∷ owned rest else owned rest

abbrev pub contains_any : List (List ℕ) → List ℕ → Bool
contains_any [] message = false
contains_any (marker ∷ markers) message =
    contains_text marker message || contains_any markers message

unfoldable pub mapping_was_already_absent : AdbOutput → Bool
unfolding contains_text to_ascii_lowercase
mapping_was_already_absent output =
    contains_any
      (codes "cannot remove listener"
        ∷ codes "listener not found"
        ∷ codes "no such listener"
        ∷ codes "not found"
        ∷ [])
      (to_ascii_lowercase (output.stdout ++ codes " " ++ output.stderr))

-- `filter_map(|line| line.strip_prefix(prefix))` on the trimmed lines.
unfoldable pub values_of : List ℕ → List (List ℕ) → List (List ℕ)
unfolding strip_prefix trim
values_of prefix [] = []
values_of prefix (line ∷ rest) = cons_some (strip_prefix prefix (trim line)) (values_of prefix rest)

-- The loop over the values, with `saw_closed`.
unfoldable pub all_closed : Bool → List (List ℕ) → Bool
all_closed saw_closed [] = saw_closed
all_closed saw_closed (value ∷ rest) =
    let continued = all_closed true rest in
    if bytes_eq value (codes "false") then continued else false

unfoldable pub vpn_descriptor_explicitly_closed : List ℕ → Bool
unfolding lines values_of all_closed
vpn_descriptor_explicitly_closed output =
    all_closed false (values_of (codes "vpnFdOpen=") (lines output))

-- The test of `verify_vpn_closed` on what dumpsys shows.
unfoldable pub shows_vpn_closed : List ℕ → Bool
unfolding contains_text to_ascii_lowercase lines trim vpn_descriptor_explicitly_closed
shows_vpn_closed stdout =
    let normalized = to_ascii_lowercase stdout in
    let process_stopped =
      contains_text (codes "pid=(not running)") normalized
      && not
          (any_line (λ line. bytes_eq (trim line) (codes "vpnfdopen=true")) (lines normalized)) in
    let service_absent =
      is_empty (trim normalized)
      || (contains_text (codes "no services match") normalized
          || (contains_text (codes "no service records found") normalized || process_stopped)) in
    service_absent || vpn_descriptor_explicitly_closed stdout

abbrev pub first_word_is : List ℕ → Option (List ℕ) → Bool
first_word_is expected none = false
first_word_is expected (some value) = elim (words value) [
  | [] ↦ false
  | word ∷ rest ↦ bytes_eq word expected
]

unfoldable pub package_version_matches : List ℕ → Bool
unfolding lines words trim strip_prefix
package_version_matches output =
    any_line (λ line. first_word_is (codes "72") (strip_prefix (codes "versionCode=") (trim line)))
      (lines output)
    && any_line (λ line. bytes_eq (trim line) (codes "versionName=4.1.34")) (lines output)

abbrev pub first_some {ℓ} : {A : Type ℓ} → Option A → Option A → Option A
first_some none rest = rest
first_some (some a) rest = some a

abbrev pub is_awake : Option (List ℕ) → Option Bool
is_awake none = none
is_awake (some value) = some (bytes_eq (trim value) (codes "Awake"))

unfoldable pub find_wakefulness : List (List ℕ) → Option (List ℕ)
find_wakefulness [] = none
find_wakefulness (line ∷ rest) =
    first_some (strip_prefix (codes "mWakefulness=") (trim line)) (find_wakefulness rest)

unfoldable pub parse_wakefulness : List ℕ → Option Bool
unfolding find_wakefulness lines trim strip_prefix
parse_wakefulness output = is_awake (find_wakefulness (lines output))

-- `Display`. A duration shows its digits, a point and a unit: here its nanoseconds stand for them.
-- A status shows the digits of its bits, without the sign.
abbrev pub error_text : AdbError → List ℕ
error_text (spawn program source) = codes "failed to start " ++ program ++ codes ": " ++ source
error_text (timeout limit) = codes "ADB command exceeded " ++ decimal limit
error_text (wait_failed e) = codes "failed while waiting for ADB: " ++ e
error_text (containment e) = codes "failed to contain ADB subprocess tree: " ++ e
error_text (read_failed e) = codes "failed to capture ADB output: " ++ e
error_text (command_failed status stderr) =
    codes "ADB exited with " ++ decimal status ++ codes ": " ++ stderr
error_text (device_not_ready help) = help
error_text vpn_still_active = codes "Android still reports an active VPN after the stop deadline"

unfoldable pub adb_reports_missing_device : AdbError → Bool
unfolding contains_text to_ascii_lowercase decimal
adb_reports_missing_device error =
    contains_any (codes "no devices" ∷ codes "no device" ∷ codes "device not found" ∷ [])
      (to_ascii_lowercase (error_text error))
