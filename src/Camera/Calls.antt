-- ===== src/Camera/Calls.antt =====
-- What stands outside camera/Camera2Wrapper.cpp: the vendor's camera module and its devices.
use android_device_samsung_z.Common.{ℕ, List}
use android_device_samsung_z.Platform.{Ret}

-- A call of the vendor's module or of its device. Texts and pointers are named by number.
pub data VendorCall : Type 0 where
  hw_get_module_by_class : VendorCall
  get_number_of_cameras : VendorCall
  open_legacy : (name : ℕ) → VendorCall
  set_preview_window : (window : ℕ) → VendorCall
  set_callbacks : (user : ℕ) → VendorCall
  enable_msg_type disable_msg_type msg_type_enabled : (msg_type : ℕ) → VendorCall
  start_preview stop_preview preview_enabled : VendorCall
  store_meta_data_in_buffers : (enable : ℕ) → VendorCall
  start_recording stop_recording recording_enabled : VendorCall
  release_recording_frame : (opaque_frame : ℕ) → VendorCall
  auto_focus cancel_auto_focus take_picture cancel_picture : VendorCall
  set_parameters : (params : ℕ) → VendorCall
  get_parameters : VendorCall
  put_parameters : (params : ℕ) → VendorCall
  send_command : (cmd arg1 arg2 : ℕ) → VendorCall
  release : VendorCall
  dump : (fd : ℕ) → VendorCall
  close : VendorCall

-- The answers may depend on all calls before.
pub record Vendor : Type 0 where
  pub reply : List VendorCall → VendorCall → Ret
  pub number : List VendorCall → ℕ  -- the result of get_number_of_cameras
  pub parameters : List VendorCall → ℕ  -- the result of get_parameters
  pub flattened : (settings : ℕ) → ℕ  -- CameraParameters: unflatten, then flatten

-- What a client registers.
pub record Callbacks : Type 0 where
  pub notify_cb : ℕ
  pub data_cb : ℕ
  pub data_cb_timestamp : ℕ
  pub get_memory : ℕ
  pub user : ℕ
