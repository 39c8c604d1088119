-- ===== src/Adb/Status.antt =====
-- What dumpsys shows of the VPN service: `AndroidVpnStatus` and its `parse`.
use quest_vd_wired.Common.{
  ℕ, Bool, true, false, ◌||◌, if◌then◌else◌, Option, none, some, List, [], ◌∷◌, codes, bytes_eq,
  lines, trim, words, strip_prefix, starts_with, contains_text, to_ascii_lowercase, parse_bool,
  parse_u64, split, split_once, min,
}
use quest_vd_wired.Adb.Actions.{◌>>=◌, pure}
use quest_vd_wired.Adb.Types.{AdbError, AdbController, seconds}
use quest_vd_wired.Adb.Parse.{cons_some}
use quest_vd_wired.Adb.Commands.{Does, dumpsys_args, run_checked_with}

pub record AndroidVpnStatus : Type 0 where
  pub present : Bool
  pub state : Option (List ℕ)
  pub vpn_fd_open : Option Bool
  pub session_id : Option (List ℕ)
  pub last_error : Option (List ℕ)
  pub screen_suspended : Option Bool
  pub tx_packets : Option ℕ
  pub tx_bytes : Option ℕ
  pub rx_packets : Option ℕ
  pub rx_bytes : Option ℕ
  pub control_rtt_samples : Option ℕ
  pub control_rtt_p99_us : Option ℕ
  pub control_rtt_max_us : Option ℕ
  pub control_rtt_histogram : List ℕ

-- `AndroidVpnStatus::default()`
abbrev pub no_status : AndroidVpnStatus
no_status = record {
  present = false;
  state = none;
  vpn_fd_open = none;
  session_id = none;
  last_error = none;
  screen_suspended = none;
  tx_packets = none;
  tx_bytes = none;
  rx_packets = none;
  rx_bytes = none;
  control_rtt_samples = none;
  control_rtt_p99_us = none;
  control_rtt_max_us = none;
  control_rtt_histogram = [];
}

-- `(value != "none").then(|| value.to_owned())`
abbrev pub unless_none : List ℕ → Option (List ℕ)
unless_none value = if bytes_eq value (codes "none") then none else some value

-- The counts that can be read.
unfoldable pub read_counts : List (List ℕ) → List ℕ
unfolding parse_u64 trim
read_counts [] = []
read_counts (count ∷ rest) = cons_some (parse_u64 (trim count)) (read_counts rest)

unfoldable pub set_counter : AndroidVpnStatus → List ℕ → Option ℕ → AndroidVpnStatus
set_counter s key value =
    if bytes_eq key (codes "txPackets")
    then record s { tx_packets = value }
    else if bytes_eq key (codes "txBytes")
    then record s { tx_bytes = value }
    else if bytes_eq key (codes "rxPackets")
    then record s { rx_packets = value }
    else if bytes_eq key (codes "rxBytes")
    then record s { rx_bytes = value }
    else s

abbrev pub read_counter : AndroidVpnStatus → Option (List ℕ × List ℕ) → AndroidVpnStatus
read_counter s none = s
read_counter s (some (key, value)) = set_counter s key (parse_u64 value)

unfoldable pub read_counters : AndroidVpnStatus → List (List ℕ) → AndroidVpnStatus
unfolding split_once set_counter parse_u64
read_counters s [] = s
read_counters s (field ∷ rest) = read_counters (read_counter s (split_once b'=' field)) rest

-- The fields that a line may begin with, in the order of the chain of `if let`.
pub data Key : Type 0 where
  state_key vpn_fd_open_key session_id_key last_error_key screen_suspended_key rtt_samples_key
        rtt_p99_key rtt_max_key rtt_histogram_key :
      Key

abbrev pub keys : List (List ℕ × Key)
keys =
    (codes "gnirehtet.state=", state_key)
    ∷ (codes "vpnFdOpen=", vpn_fd_open_key)
    ∷ (codes "sessionId=", session_id_key)
    ∷ (codes "lastError=", last_error_key)
    ∷ (codes "screenSuspended=", screen_suspended_key)
    ∷ (codes "controlRttSamples=", rtt_samples_key)
    ∷ (codes "controlRttP99Us=", rtt_p99_key)
    ∷ (codes "controlRttMaxUs=", rtt_max_key)
    ∷ (codes "controlRttHistogram=", rtt_histogram_key)
    ∷ []

abbrev pub or_next {ℓ} : {A : Type ℓ} → Key → Option A → Option (Key × A) → Option (Key × A)
or_next k none rest = rest
or_next k (some value) rest = some (k, value)

unfoldable pub find_key : List (List ℕ × Key) → List ℕ → Option (Key × List ℕ)
unfolding strip_prefix
find_key [] line = none
find_key ((prefix, k) ∷ rest) line = or_next k (strip_prefix prefix line) (find_key rest line)

unfoldable pub set_field : AndroidVpnStatus → Key → List ℕ → AndroidVpnStatus
unfolding to_ascii_lowercase parse_bool parse_u64 read_counts split
set_field s state_key value = record s { present = true; state = some (to_ascii_lowercase value) }
set_field s vpn_fd_open_key value = record s { present = true; vpn_fd_open = parse_bool value }
set_field s session_id_key value = record s { present = true; session_id = unless_none value }
set_field s last_error_key value = record s { present = true; last_error = unless_none value }
set_field s screen_suspended_key value = record s {
  present = true;
  screen_suspended = parse_bool value;
}
set_field s rtt_samples_key value = record s { control_rtt_samples = parse_u64 value }
set_field s rtt_p99_key value = record s { control_rtt_p99_us = parse_u64 value }
set_field s rtt_max_key value = record s { control_rtt_max_us = parse_u64 value }
set_field s rtt_histogram_key value = record s {
  control_rtt_histogram = read_counts (split b',' value);
}

-- The chain of `if let`: a field, or else the line of the counters.
unfoldable pub read_field : AndroidVpnStatus → List ℕ → Option (Key × List ℕ) → AndroidVpnStatus
unfolding set_field strip_prefix words read_counters
read_field s line (some (k, value)) = set_field s k value
read_field s line none =
    if starts_with (codes "txPackets=") line then read_counters s (words line) else s

unfoldable pub read_line : AndroidVpnStatus → List ℕ → AndroidVpnStatus
unfolding contains_text read_field find_key
read_line s line =
    let named =
      contains_text (codes "ServiceRecord") line
      || contains_text (codes "app=ProcessRecord") line in
    let s' : AndroidVpnStatus = if named then record s { present = true } else s in
    read_field s' line (find_key keys line)

unfoldable pub read_lines : AndroidVpnStatus → List (List ℕ) → AndroidVpnStatus
unfolding read_line trim
read_lines s [] = s
read_lines s (line ∷ rest) = read_lines (read_line s (trim line)) rest

-- `AndroidVpnStatus::parse`
unfoldable pub parse : List ℕ → AndroidVpnStatus
unfolding read_lines lines
parse output = read_lines no_status (lines output)

module _ (c : AdbController) where
  unfoldable pub android_status_with_timeout : ℕ → Does c AdbError AndroidVpnStatus
  unfolding run_checked_with parse
  android_status_with_timeout limit = do
    output ← run_checked_with c dumpsys_args limit
    pure (parse output.stdout)

  unfoldable pub android_status : Does c AdbError AndroidVpnStatus
  unfolding android_status_with_timeout
  android_status = android_status_with_timeout c.command_timeout

  unfoldable pub android_status_quick : Does c AdbError AndroidVpnStatus
  unfolding android_status_with_timeout
  android_status_quick = android_status_with_timeout (min c.command_timeout (seconds 1))

-- The test for a headset that says it is asleep.
abbrev pub says_asleep : AndroidVpnStatus → Bool
says_asleep s = elim s.screen_suspended [
  | none ↦ false
  | some suspended ↦ elim s.state [
    | none ↦ false
    | some state ↦ if suspended then bytes_eq state (codes "degraded") else false
  ]
]
