-- ===== src/Tests/Link.antt =====
-- Frames between the host and the radio, run through the queues of the USB transport.
use edge_device_esp.Base.{ℕ, ◌≡◌, refl, arith, true, false, List, [], ◌∷◌, ◌++◌, take, drop}
use edge_device_esp.Base.EspErr.{EspErr}
use edge_device_esp.Protocol.Frame.{Outcome, is_request}
use edge_device_esp.Usb.Stream.{receive_all}
use edge_device_esp.Usb.Stream.Frames.{stream_frames}
use edge_device_esp.Usb.Session.{Session, Env, control, handle_frame}
use edge_device_esp.Usb.Session.Delivery.{IsPlain}
use edge_device_esp.Usb.Link.{Call, Answers, Worker, new_link}
use edge_device_esp.Usb.Link.Refine
use edge_device_esp.Usb.Link.Refine.{Step, Shows, run, list_run, run_refines}
use edge_device_esp.Usb.Link.Drain.{of_kind, sends, takes, woven, list_taken, new_link-Shows}
use edge_device_esp.Usb.Link.Path.{steps_of, new_calls, work_run, host-calls}

abbrev voice : List ℕ
voice = b'V' ∷ b'C' ∷ 2 ∷ 9 ∷ []

abbrev plain : List ℕ
plain = 10 ∷ 20 ∷ []

abbrev both : List (List ℕ)
both = voice ∷ plain ∷ []

-- Voice is sent first, and taken last.
abbrev steps : List Step
steps = Refine.send true voice ∷ Refine.send false plain ∷ takes 3

run_refines_example :
    Shows (64, 256) ([], []) (run steps new_link).0 × ((run steps new_link).1 ≡ plain ∷ voice ∷ [])
unfolding list_run
run_refines_example = run_refines (64, 256) steps ([], []) new_link new_link-Shows

abbrev session : Session
session = record {
  initialized = true;
  lock = true;
  mode = control;
  gap = 3;
  last_activity = 0;
  handled = 0;
  trace = [];
}

abbrev platform : Env
platform = record { now = 70; locked = true; drained = true; written = true; ble = false }

abbrev cut : List (List ℕ)
cut = take 3 (stream_frames both) ∷ drop 3 (stream_frames both) ∷ []

abbrev worker : Worker
worker = record { session = session; low_pressure = 0; calls = [] }

abbrev radio : Answers
radio = record { voice = λ bytes. EspErr.ok; phone = λ bytes. EspErr.ok }

voice-IsPlain : IsPlain voice
voice-IsPlain = record {
  sendable = (omega arith, omega arith);
  no_command = refl;
  no_legacy = refl;
}

plain-IsPlain : IsPlain plain
plain-IsPlain = record {
  sendable = (omega arith, omega arith);
  no_command = refl;
  no_legacy = refl;
}

-- The task takes the voice frame before the plain one is queued.
host-calls_example :
    let received = (receive_all (handle_frame 5 (λ n. platform)) cut ([], session)).1 in
    let steps = woven (λ k. k) (steps_of (new_calls session received)) ++ takes 2 in
    let taken = list_taken (woven (λ k. k) (sends both) ++ takes 2) in
    ((work_run radio steps (new_link, worker)).1.calls
      ≡ Call.voice_to_radio (9 ∷ []) ∷ Call.protocol (Outcome.to_radio plain false) ∷ [])
    × (of_kind false taken ≡ plain ∷ [])
    × (of_kind true taken ≡ voice ∷ [])
unfolding is_request list_run
host-calls_example =
    host-calls 5 (λ n. platform) radio (λ k. k) both cut session worker refl
      (voice-IsPlain, (plain-IsPlain, tt)) (omega arith) (omega arith, (omega arith, tt)) refl
