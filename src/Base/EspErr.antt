-- ===== src/Base/EspErr.antt =====
-- `esp_err_t`, the error codes of ESP-IDF that the modelled code returns or tests.
use mathlib.Core.Bool.{Bool, true, false}

pub data EspErr : Type 0 where
  ok : EspErr
  fail : EspErr
  no_mem : EspErr
  invalid_arg : EspErr
  invalid_state : EspErr
  invalid_size : EspErr
  not_found : EspErr
  timeout : EspErr
  not_allowed : EspErr
  not_supported : EspErr

abbrev pub is_ok : EspErr → Bool
is_ok EspErr.ok = true
is_ok EspErr.fail = false
is_ok EspErr.no_mem = false
is_ok EspErr.invalid_arg = false
is_ok EspErr.invalid_state = false
is_ok EspErr.invalid_size = false
is_ok EspErr.not_found = false
is_ok EspErr.timeout = false
is_ok EspErr.not_allowed = false
is_ok EspErr.not_supported = false
