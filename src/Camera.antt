-- ===== src/Camera.antt =====
-- The wrapper of the vendor's legacy camera device: camera/Camera2Wrapper.cpp, with its statics and
-- the one device that is open. A device that is NULL is read by the log of every operation first,
-- so the operations are about a device that is not.
use android_device_samsung_z.Common.{
  ℕ, ◌+◌, Bool, true, false, Option, none, some, List, [], ◌∷◌, ◌==◌, not, ltb, is_some,
  if◌then◌else◌,
}
use android_device_samsung_z.Platform.{Ret, success, failed, code, einval, enomem, is_zero}
pub mod Calls
pub mod Runs
pub mod Closing
mod Examples
use android_device_samsung_z.Camera.Calls.{Vendor, VendorCall, Callbacks}

-- struct wrapper_camera2_device
pub record Camera2Device : Type 0 where
  pub id : ℕ
  pub camera_released : Bool

-- `fixed_set_params` is the texts of its block of `block_size` pointers, `none` for NULL. `fault` is
-- set where the code reads or writes outside of the block.
pub record Camera2 : Type 0 where
  pub has_module : Bool  -- gVendorModule
  pub preview_window : Option ℕ
  pub preview_start_deferred : Bool
  pub user : Option Callbacks
  pub num_cameras : ℕ
  pub fixed_set_params : Option (ℕ → Option ℕ)
  pub block_size : ℕ
  pub device : Camera2Device
  pub fault : Bool
  pub log : List VendorCall

abbrev pub call_vendor : VendorCall → Camera2 → Camera2
call_vendor call s = record s { log = call ∷ s.log }

-- The access to `fixed_set_params[id]`.
abbrev pub indexes : Camera2 → Camera2
indexes s = if ltb s.device.id s.block_size then s else record s { fault = true }

abbrev pub put_text : (id : ℕ) → Option ℕ → (ℕ → Option ℕ) → ℕ → Option ℕ
put_text id text block i = if i == id then text else block i

unfoldable pub put_fixed : Option ℕ → Camera2 → Camera2
put_fixed text s = elim s.fixed_set_params [
  | none ↦ record s { fault = true }
  | some block ↦ record (indexes s) { fixed_set_params = some (put_text s.device.id text block) }
]

unfoldable pub camera2_set_callbacks : Callbacks → Camera2 → Camera2
camera2_set_callbacks c s =
    call_vendor (VendorCall.set_callbacks c.user) (record s { user = some c })

unfoldable pub camera2_release : Camera2 → Camera2
camera2_release s =
    let released = call_vendor VendorCall.release s in
    record released { device = record s.device { camera_released = true } }

-- The device is freed.
unfoldable pub camera2_device_close : Camera2 → Ret × Camera2
camera2_device_close s =
    let cleared = if is_some s.fixed_set_params then put_fixed none s else s in
    let released = if s.device.camera_released then cleared else camera2_release cleared in
    let closed = call_vendor VendorCall.close released in
    (success, record closed { preview_window = none; preview_start_deferred = false })

module _ (v : Vendor) where
  -- VENDOR_CALL
  abbrev pub forward : VendorCall → Camera2 → Ret × Camera2
  forward call s = (v.reply s.log call, call_vendor call s)

  -- The operations that hand a call on; some of them give no result.
  abbrev pub camera2_enable_msg_type : (msg_type : ℕ) → Camera2 → Ret × Camera2
  camera2_enable_msg_type msg_type s = forward (VendorCall.enable_msg_type msg_type) s

  abbrev pub camera2_disable_msg_type : (msg_type : ℕ) → Camera2 → Ret × Camera2
  camera2_disable_msg_type msg_type s = forward (VendorCall.disable_msg_type msg_type) s

  abbrev pub camera2_msg_type_enabled : (msg_type : ℕ) → Camera2 → Ret × Camera2
  camera2_msg_type_enabled msg_type s = forward (VendorCall.msg_type_enabled msg_type) s

  abbrev pub camera2_stop_preview : Camera2 → Ret × Camera2
  camera2_stop_preview s = forward VendorCall.stop_preview s

  abbrev pub camera2_store_meta_data_in_buffers : (enable : ℕ) → Camera2 → Ret × Camera2
  camera2_store_meta_data_in_buffers enable s =
      forward (VendorCall.store_meta_data_in_buffers enable) s

  abbrev pub camera2_start_recording : Camera2 → Ret × Camera2
  camera2_start_recording s = forward VendorCall.start_recording s

  abbrev pub camera2_stop_recording : Camera2 → Ret × Camera2
  camera2_stop_recording s = forward VendorCall.stop_recording s

  abbrev pub camera2_recording_enabled : Camera2 → Ret × Camera2
  camera2_recording_enabled s = forward VendorCall.recording_enabled s

  abbrev pub camera2_release_recording_frame : (opaque_frame : ℕ) → Camera2 → Ret × Camera2
  camera2_release_recording_frame opaque_frame s =
      forward (VendorCall.release_recording_frame opaque_frame) s

  abbrev pub camera2_auto_focus : Camera2 → Ret × Camera2
  camera2_auto_focus s = forward VendorCall.auto_focus s

  abbrev pub camera2_cancel_auto_focus : Camera2 → Ret × Camera2
  camera2_cancel_auto_focus s = forward VendorCall.cancel_auto_focus s

  abbrev pub camera2_take_picture : Camera2 → Ret × Camera2
  camera2_take_picture s = forward VendorCall.take_picture s

  abbrev pub camera2_cancel_picture : Camera2 → Ret × Camera2
  camera2_cancel_picture s = forward VendorCall.cancel_picture s

  abbrev pub camera2_send_command : (cmd arg1 arg2 : ℕ) → Camera2 → Ret × Camera2
  camera2_send_command cmd arg1 arg2 s = forward (VendorCall.send_command cmd arg1 arg2) s

  abbrev pub camera2_dump : (fd : ℕ) → Camera2 → Ret × Camera2
  camera2_dump fd s = forward (VendorCall.dump fd) s

  unfoldable pub check_vendor_module : Camera2 → Ret × Camera2
  check_vendor_module s =
      let rv = v.reply s.log VendorCall.hw_get_module_by_class in
      let asked = call_vendor VendorCall.hw_get_module_by_class s in
      if s.has_module
      then (success, s)
      else if is_zero rv
      then (success, record asked { has_module = true })
      else (rv, asked)

  unfoldable pub camera2_set_preview_window : Option ℕ → Camera2 → Ret × Camera2
  camera2_set_preview_window none s = (success, record s { preview_window = none })
  camera2_set_preview_window (some window) s =
      let rc = v.reply s.log (VendorCall.set_preview_window window) in
      let shown =
        call_vendor (VendorCall.set_preview_window window)
          (record s { preview_window = some window }) in
      let started =
        call_vendor VendorCall.start_preview (record shown { preview_start_deferred = false }) in
      (rc, if s.preview_start_deferred then started else shown)

  unfoldable pub camera2_start_preview : Camera2 → Ret × Camera2
  camera2_start_preview s =
      if is_some s.preview_window
      then forward VendorCall.start_preview s
      else (success, record s { preview_start_deferred = true })

  unfoldable pub camera2_preview_enabled : Camera2 → Ret × Camera2
  camera2_preview_enabled s =
      if s.preview_start_deferred then (code 1, s) else forward VendorCall.preview_enabled s

  -- The text that `camera2_fixup_setparams` keeps is passed on.
  unfoldable pub camera2_set_parameters : (params : ℕ) → Camera2 → Ret × Camera2
  camera2_set_parameters params s =
      let text = v.flattened params in
      forward (VendorCall.set_parameters text) (put_fixed (some text) s)

  unfoldable pub camera2_get_parameters : Camera2 → ℕ × Camera2
  camera2_get_parameters s =
      let params = v.parameters s.log in
      let asked = call_vendor VendorCall.get_parameters s in
      (v.flattened params, call_vendor (VendorCall.put_parameters params) asked)

  -- `num_cameras` and the block of texts, as the first open makes them.
  unfoldable pub prepare : (block : Bool) → Camera2 → Ret × Camera2
  prepare block s =
      let asked = record (call_vendor VendorCall.get_number_of_cameras s) {
        num_cameras = v.number s.log;
      } in
      let counted = if s.num_cameras == 0 then asked else s in
      if is_some s.fixed_set_params
      then (success, counted)
      else if block
      then (
        success,
        record counted { fixed_set_params = some (λ i. none); block_size = counted.num_cameras },
      )
      else (failed enomem, counted)

  -- `name` is `none` where it is NULL, with which the answer is 0; `cameraid` is its number, `none`
  -- where it is negative. `block`, `memory` and `ops_memory` say which allocations succeed.
  unfoldable pub camera2_device_open :
      (block memory ops_memory : Bool) → (name cameraid : Option ℕ) → Camera2 → Ret × Camera2
  camera2_device_open block memory ops_memory none cameraid s = (success, s)
  camera2_device_open block memory ops_memory (some name) none s =
      let (rv, t) = check_vendor_module s in
      let (prepared, r) = prepare block t in
      if not (is_zero rv)
      then (failed einval, t)
      else if not (is_zero prepared)
      then (prepared, r)
      else (failed einval, r)
  camera2_device_open block memory ops_memory (some name) (some cameraid) s =
      let (rv, t) = check_vendor_module s in
      let (prepared, r) = prepare block t in
      let (opened, o) = forward (VendorCall.open_legacy name) r in
      if not (is_zero rv)
      then (failed einval, t)
      else if not (is_zero prepared)
      then (prepared, r)
      else if ltb r.num_cameras cameraid
      then (failed einval, r)
      else if not memory
      then (failed enomem, r)
      else if not (is_zero opened)
      then (opened, o)
      else if not ops_memory
      then (failed enomem, o)
      else (success, record o { device = record { id = cameraid; camera_released = false } })
