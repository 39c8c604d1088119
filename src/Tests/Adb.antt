-- ===== src/Tests/Adb.antt =====
-- The ADB transactions on scripted answers.
use quest_vd_wired.Common.{
  ℕ, ◌+◌, ◌≡◌, ◌≢◌, ◌≤◌, ◌⊎◌, refl, true, none, List, [], ◌∷◌, codes, arith, replicate,
  is_whitespace, trim, strip_prefix,
}
use quest_vd_wired.Protocol.Types.{SessionId}
use quest_vd_wired.Adb.Actions.{Result, ok, err}
use quest_vd_wired.Adb.Types.{
  AdbOutput, AdbError, timeout, Executor, AdbController, with_timing, TransactionError,
  reverse_setup, plain,
}
use quest_vd_wired.Adb.Commands.{verify_rounds}
use quest_vd_wired.Adb.Transactions.{start, start_receipt}
use quest_vd_wired.Adb.Stops.{Stopped, end_session, stops, end_session-Stopped}
use quest_vd_wired.Adb.Starts.{Started, start-Started}
use quest_vd_wired.Adb.Failures.{CleanedUp, IsUntouched, start-CleanedUp}
use quest_vd_wired.Adb.Deadline.{IsClocked, verify_ends}
use quest_vd_wired.Adb.Listing.{Line, IsLine, print_listing, ends_of, parse-print_listing}
use quest_vd_wired.Adb.Parse.{shows_vpn_closed, owned, parse_reverse_list}

-- The answers that are still to come, and the time. After the last one everything succeeds in silence.
record Script : Type 0 where
  answers : List (Result AdbError AdbOutput)
  time : ℕ

abbrev says : List ℕ → Result AdbError AdbOutput
says text = ok (record { status = 0; stdout = text; stderr = [] })

abbrev next_answer : List (Result AdbError AdbOutput) → ℕ → Result AdbError AdbOutput × Script
next_answer [] t = (says [], record { answers = []; time = t })
next_answer (a ∷ rest) t = (a, record { answers = rest; time = t })

abbrev scripted : Executor
scripted = record {
  World = Script;
  execute = λ args limit w. next_answer w.answers w.time;
  recover_server = λ limit w. (ok tt, w);
  now = λ w. (w.time, record w { time = w.time + 1 });
  sleep = λ d w. record w { time = w.time + d };
}

abbrev controller : AdbController
controller = with_timing scripted 8 5 1

abbrev session : SessionId
session = record { bytes = replicate 16 7 }

abbrev listing : List ℕ
listing =
    codes "UsbFfs tcp:31416 tcp:31416\nUsbFfs tcp:31418 tcp:31418\nUsbFfs tcp:31417 tcp:31417\n"

abbrev says_nothing : Result AdbError AdbOutput
says_nothing = says []

-- Reached, woken, stopped, closed, three removals, an empty listing, three mappings, and the listing.
abbrev good_day : Script
good_day = record {
  answers =
      says (codes "device\n")
      ∷ says_nothing
      ∷ says_nothing
      ∷ says_nothing
      ∷ says_nothing
      ∷ says_nothing
      ∷ says_nothing
      ∷ says_nothing
      ∷ says_nothing
      ∷ says_nothing
      ∷ says_nothing
      ∷ says listing
      ∷ [];
  time = 0;
}

-- The second mapping times out.
abbrev bad_day : Script
bad_day = record {
  answers =
      says (codes "device\n")
      ∷ says_nothing
      ∷ says_nothing
      ∷ says_nothing
      ∷ says_nothing
      ∷ says_nothing
      ∷ says_nothing
      ∷ says_nothing
      ∷ says_nothing
      ∷ err (timeout 3)
      ∷ [];
  time = 0;
}

abbrev setup_error : TransactionError
setup_error = record { phase = reverse_setup; failures = plain (timeout 3) ∷ [] }

starts_well :
    (start controller session true good_day).0 ≡ ok (start_receipt controller session true)
unfolding start is_whitespace trim shows_vpn_closed owned parse_reverse_list
starts_well = refl

start-Started_example :
    Started controller session true (start controller session true good_day).1
    × (start_receipt controller session true ≡ start_receipt controller session true)
start-Started_example =
    start-Started controller session true good_day (start_receipt controller session true)
      starts_well

starts_badly : (start controller session true bad_day).0 ≡ err setup_error
unfolding start is_whitespace trim shows_vpn_closed owned parse_reverse_list
starts_badly = refl

start-CleanedUp_example :
    IsUntouched controller bad_day setup_error (start controller session true bad_day).1
    ⊎ CleanedUp controller setup_error (start controller session true bad_day).1
start-CleanedUp_example = start-CleanedUp controller session true bad_day setup_error starts_badly

stops_well : (end_session controller stops good_day).0 ≡ ok tt
unfolding end_session is_whitespace trim shows_vpn_closed owned parse_reverse_list
stops_well = refl

end_session-Stopped_example : Stopped controller (end_session controller stops good_day).1
end_session-Stopped_example = end_session-Stopped controller stops good_day stops_well

next-later :
    (answers : List (Result AdbError AdbOutput)) (t : ℕ) → t ≤ (next_answer answers t).1.time
next-later [] t = omega arith
next-later (a ∷ rest) t = omega arith

scripted-IsClocked : IsClocked scripted (λ w. w.time)
scripted-IsClocked = record {
  execute_later = λ args limit w. next-later w.answers w.time;
  now_after = λ w. omega arith;
  now_before = λ w. omega arith;
  sleep_passes = λ d w. omega arith;
}

verify_ends_example : (verify_rounds controller 7 5 (record good_day { time = 1 })).0 ≢ none
verify_ends_example = verify_ends controller (λ w. w.time) scripted-IsClocked good_day (omega arith)

abbrev a_line : Line
a_line = record {
  transport = codes "UsbFfs";
  remote = codes "tcp:31416";
  local = codes "tcp:31416";
}

a_line-IsLine : IsLine a_line
unfolding is_whitespace strip_prefix
a_line-IsLine = record {
  transport = record {
    not_empty = ground arith;
    no_white = (refl, (refl, (refl, (refl, (refl, (refl, tt))))));
  };
  remote = record {
    not_empty = ground arith;
    no_white = (refl, (refl, (refl, (refl, (refl, (refl, (refl, (refl, (refl, tt)))))))));
  };
  local = record {
    not_empty = ground arith;
    no_white = (refl, (refl, (refl, (refl, (refl, (refl, (refl, (refl, (refl, tt)))))))));
  };
  remote_tcp = refl;
  local_tcp = refl;
}

parse-print_listing_example :
    parse_reverse_list (print_listing (a_line ∷ [])) ≡ ends_of (a_line ∷ [])
parse-print_listing_example = parse-print_listing (a_line ∷ []) (a_line-IsLine, tt)
