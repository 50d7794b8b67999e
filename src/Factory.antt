-- ===== src/Factory.antt =====
-- The authorizations of main/src/factory/factory_data.c. All of them answer true: the code that would
-- check a license or a signature stands behind the return, and is left out.
use edge_device_esp.Base.{ℕ, Bool, true, List}

-- EDGEZ_LICENSE_CAP_MOBILE_CONTROL.
abbrev pub mobile_control : ℕ
mobile_control = 0x4D435452

-- `factory_data_license_authorize`, for every capability.
abbrev pub license_authorize : (capability : ℕ) → Bool
license_authorize capability = true

-- `factory_data_sdk_release_authorize`, for every compatibility, release and signature.
abbrev pub sdk_release_authorize : (compatibility release_id signature : List ℕ) → Bool
sdk_release_authorize compatibility release_id signature = true

-- `factory_data_sdk_release_is_authorized`.
abbrev pub sdk_release_is_authorized : Bool
sdk_release_is_authorized = true
