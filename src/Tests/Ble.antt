-- ===== src/Tests/Ble.antt =====
-- The BLE service on concrete writes.
use edge_device_esp.Base.{ℕ, ◌≡◌, ◌≤◌, refl, arith, true, false, List, [], ◌∷◌, length, take, drop}
use edge_device_esp.Base.{Option, none, some, if◌then◌else◌, ltb}
use edge_device_esp.Base.EspErr.{EspErr}
use edge_device_esp.Usb.Link
use edge_device_esp.Usb.Session
use edge_device_esp.Ble.Voice.{voice_write, voice_write-process_payload}
use edge_device_esp.Ble.Receive.{writes}
use edge_device_esp.Ble.Receive.Stream.{frames, accept_all, CopiesWhole, writes-frames}
use edge_device_esp.Ble.Ota.{Answers, run}
use edge_device_esp.Ble.Ota.Laws.{seen, fresh, run-good_boots}

abbrev answers : Answers
answers = record {
  partition = some 1048576;
  begin_err = 0;
  write_err = 0;
  end_err = 0;
  boot_err = 0;
}

-- An update of two bytes.
abbrev update : List (Answers × Option (List ℕ))
update =
    (answers, some (1 ∷ 2 ∷ 0 ∷ 0 ∷ 0 ∷ []))
    ∷ (answers, some (2 ∷ 0 ∷ 0 ∷ 0 ∷ 0 ∷ 7 ∷ 8 ∷ []))
    ∷ (answers, some (3 ∷ []))
    ∷ []

run-good_boots_example :
    ((seen (run update (fresh false)).trace).good_boots ≡ true)
    × ((run update (fresh false)).received ≤ (run update (fresh false)).expected)
run-good_boots_example = run-good_boots update false (omega arith, (omega arith, (omega arith, tt)))

-- A stack that copies out what fits.
abbrev flat : ℕ → List ℕ → Option (List ℕ)
flat room om = if ltb room (length om) then none else some om

flat-CopiesWhole : CopiesWhole flat
flat-CopiesWhole room om h = let fits : ltb room (length om) ≡ false = ground arith in rw fits refl

abbrev payloads : List (List ℕ)
payloads = (1 ∷ 2 ∷ []) ∷ (3 ∷ []) ∷ []

abbrev cut : List (List ℕ)
cut = take 5 (frames payloads) ∷ drop 5 (frames payloads) ∷ []

writes-frames_example : writes flat false cut [] ≡ (accept_all false payloads, [])
writes-frames_example =
    writes-frames flat false payloads cut flat-CopiesWhole (omega arith, (omega arith, tt))
      (omega arith, (omega arith, tt)) refl

abbrev voice_bytes : List ℕ
voice_bytes = b'V' ∷ b'C' ∷ 2 ∷ 9 ∷ []

abbrev radio_answers : Link.Answers
radio_answers = record { voice = λ bytes. EspErr.ok; phone = λ bytes. EspErr.ok }

abbrev idle_worker : Link.Worker
idle_worker = record {
  session = record {
    initialized = true;
    lock = true;
    mode = Session.control;
    gap = 3;
    last_activity = 0;
    handled = 0;
    trace = [];
  };
  low_pressure = 0;
  calls = [];
}

voice_write-process_payload_example :
    (Link.process_payload radio_answers 0 voice_bytes idle_worker).calls
    ≡ (voice_write true true 5 radio_answers (λ bytes. EspErr.ok) (λ room. some voice_bytes)).1
voice_write-process_payload_example =
    voice_write-process_payload 5 radio_answers (λ bytes. EspErr.ok) (λ room. some voice_bytes)
      voice_bytes 0 idle_worker refl (omega arith) refl refl
