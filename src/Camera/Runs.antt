-- ===== src/Camera/Runs.antt =====
-- The runs of a legacy camera device of camera/Camera2Wrapper.cpp.
use android_device_samsung_z.Common.{
  ℕ, ◌≡◌, refl, sym, ap, ◌∙◌, Bool, true, false, Option, none, some, List, [], ◌∷◌, ◌&&◌, ltb,
  is_some, if_of, arith,
}
use android_device_samsung_z.Platform.{Ret}
use android_device_samsung_z.Camera.{
  Camera2Device, Camera2, forward, camera2_set_preview_window, camera2_set_callbacks,
  camera2_start_preview, camera2_preview_enabled, camera2_set_parameters, camera2_get_parameters,
  camera2_release, put_fixed,
}
use android_device_samsung_z.Camera.Calls.{Vendor, VendorCall, Callbacks}

-- The calls that an operation only hands on.
abbrev pub is_handed_on : VendorCall → Bool
is_handed_on (VendorCall.enable_msg_type m) = true
is_handed_on (VendorCall.disable_msg_type m) = true
is_handed_on (VendorCall.msg_type_enabled m) = true
is_handed_on VendorCall.stop_preview = true
is_handed_on (VendorCall.store_meta_data_in_buffers e) = true
is_handed_on VendorCall.start_recording = true
is_handed_on VendorCall.stop_recording = true
is_handed_on VendorCall.recording_enabled = true
is_handed_on (VendorCall.release_recording_frame f) = true
is_handed_on VendorCall.auto_focus = true
is_handed_on VendorCall.cancel_auto_focus = true
is_handed_on VendorCall.take_picture = true
is_handed_on VendorCall.cancel_picture = true
is_handed_on (VendorCall.send_command c a b) = true
is_handed_on (VendorCall.dump fd) = true
is_handed_on _ = false

-- Whether the device that was opened last has got a window, and whether it was released.
abbrev pub has_window : List VendorCall → Bool
has_window [] = false
has_window (VendorCall.open_legacy name ∷ log) = false
has_window (VendorCall.set_preview_window w ∷ log) = true
has_window (_ ∷ log) = has_window log

abbrev pub has_release : List VendorCall → Bool
has_release [] = false
has_release (VendorCall.open_legacy name ∷ log) = false
has_release (VendorCall.release ∷ log) = true
has_release (_ ∷ log) = has_release log

-- Whether each preview was started on a device that had a window.
abbrev pub shows_all : List VendorCall → Bool
shows_all [] = true
shows_all (VendorCall.start_preview ∷ log) = has_window log && shows_all log
shows_all (_ ∷ log) = shows_all log

-- What holds of an open device.
pub record IsHeld (s : Camera2) : Type 0 where
  pub shown : shows_all s.log ≡ true
  pub windowed : is_some s.preview_window ≡ true → has_window s.log ≡ true
  pub deferred : s.preview_start_deferred ≡ true → s.preview_window ≡ none
  pub released : s.device.camera_released ≡ true → has_release s.log ≡ true
  pub texts : is_some s.fixed_set_params ≡ true
  pub in_block : ltb s.device.id s.block_size ≡ true
  pub no_fault : s.fault ≡ false

-- What holds where no device is open.
pub record IsIdle (s : Camera2) : Type 0 where
  pub shown : shows_all s.log ≡ true
  pub no_window : s.preview_window ≡ none
  pub not_deferred : s.preview_start_deferred ≡ false
  pub no_fault : s.fault ≡ false

-- A call that changes neither the windows nor the release.
abbrev SameCalls : (l m : List VendorCall) → Type 0
SameCalls l m =
    (shows_all m ≡ shows_all l) × (has_window m ≡ has_window l) × (has_release m ≡ has_release l)

handed_on-SameCalls :
    (call : VendorCall) (log : List VendorCall)
    → is_handed_on call ≡ true
    → SameCalls log (call ∷ log)
handed_on-SameCalls call log e = ground arith

put_fixed-facts :
    (text : Option ℕ) (s : Camera2)
    → is_some s.fixed_set_params ≡ true
    → ltb s.device.id s.block_size ≡ true
    → let t = put_fixed text s in
      (t.log ≡ s.log)
      × (t.preview_window ≡ s.preview_window)
      × (t.preview_start_deferred ≡ s.preview_start_deferred)
      × (t.device ≡ s.device)
      × (t.fault ≡ s.fault)
      × (t.block_size ≡ s.block_size)
      × (is_some t.fixed_set_params ≡ true)
unfolding put_fixed
put_fixed-facts text s some_block inside = ground (arith, some_block, inside)

pub put_fixed-IsHeld : (text : Option ℕ) (s : Camera2) → IsHeld s → IsHeld (put_fixed text s)
put_fixed-IsHeld text s h =
    let (log, window, wanted, device, fault, size, some_block) =
      put_fixed-facts text s h.texts h.in_block in
    record {
      shown = ap shows_all log ∙ h.shown;
      windowed = λ e. ap has_window log ∙ h.windowed (sym (ap is_some window) ∙ e);
      deferred = λ e. window ∙ h.deferred (sym wanted ∙ e);
      released = λ e.
          ap has_release log
          ∙ h.released (sym (ap (λ (d : Camera2Device). d.camera_released) device) ∙ e);
      texts = some_block;
      in_block = ground (arith, device, size, h.in_block);
      no_fault = fault ∙ h.no_fault;
    }

module _ (v : Vendor) where
  -- One request to the device.
  pub data CameraRequest (s : Camera2) : Camera2 → Type 0 where
    hand_on : (call : VendorCall) → is_handed_on call ≡ true → CameraRequest s (forward v call s).1
    preview_window : (window : Option ℕ) → CameraRequest s (camera2_set_preview_window v window s).1
    callbacks : (c : Callbacks) → CameraRequest s (camera2_set_callbacks c s)
    start : CameraRequest s (camera2_start_preview v s).1
    is_enabled : CameraRequest s (camera2_preview_enabled v s).1
    set_text : (params : ℕ) → CameraRequest s (camera2_set_parameters v params s).1
    get_text : CameraRequest s (camera2_get_parameters v s).1
    give_up : CameraRequest s (camera2_release s)

  pub data CameraRequests (s : Camera2) : Camera2 → Type 0 where
    here : CameraRequests s s
    next : {t u : Camera2} → CameraRequests s t → CameraRequest t u → CameraRequests s u

  log-IsHeld :
      (s : Camera2) (call : VendorCall)
      → SameCalls s.log (call ∷ s.log)
      → IsHeld s
      → IsHeld (record s { log = call ∷ s.log })
  log-IsHeld s call (shows, windows, releases) h = record {
    shown = shows ∙ h.shown;
    windowed = λ e. windows ∙ h.windowed e;
    deferred = h.deferred;
    released = λ e. releases ∙ h.released e;
    texts = h.texts;
    in_block = h.in_block;
    no_fault = h.no_fault;
  }

  CameraRequest-IsHeld : {s t : Camera2} → CameraRequest s t → IsHeld s → IsHeld t
  unfolding camera2_set_preview_window camera2_set_callbacks camera2_start_preview
      camera2_preview_enabled camera2_set_parameters camera2_get_parameters camera2_release
  CameraRequest-IsHeld {s} (hand_on call e) h =
      log-IsHeld s call (handed_on-SameCalls call s.log e) h
  CameraRequest-IsHeld {s} (preview_window none) h = record {
    shown = h.shown;
    windowed = λ e. absurd (cc e);
    deferred = λ e. refl;
    released = h.released;
    texts = h.texts;
    in_block = h.in_block;
    no_fault = h.no_fault;
  }
  CameraRequest-IsHeld {s} (preview_window (some w)) h =
      if_of IsHeld s.preview_start_deferred _ _
        (λ on. record {
          shown = h.shown;
          windowed = λ e. refl;
          deferred = λ e. absurd (cc e);
          released = h.released;
          texts = h.texts;
          in_block = h.in_block;
          no_fault = h.no_fault;
        })
        (λ off. record {
          shown = h.shown;
          windowed = λ e. refl;
          deferred = λ e. absurd (cc (sym off ∙ e));
          released = h.released;
          texts = h.texts;
          in_block = h.in_block;
          no_fault = h.no_fault;
        })
  CameraRequest-IsHeld {s} (callbacks c) h = record {
    shown = h.shown;
    windowed = h.windowed;
    deferred = h.deferred;
    released = h.released;
    texts = h.texts;
    in_block = h.in_block;
    no_fault = h.no_fault;
  }
  CameraRequest-IsHeld {s} start h =
      if_of {A = Ret × Camera2} (λ r. IsHeld r.1) (is_some s.preview_window) _ _
        (λ e. record {
          shown = ground (arith, h.windowed e, h.shown);
          windowed = h.windowed;
          deferred = h.deferred;
          released = h.released;
          texts = h.texts;
          in_block = h.in_block;
          no_fault = h.no_fault;
        })
        (λ none_set. record {
          shown = h.shown;
          windowed = h.windowed;
          deferred = λ e. ground (arith, none_set);
          released = h.released;
          texts = h.texts;
          in_block = h.in_block;
          no_fault = h.no_fault;
        })
  CameraRequest-IsHeld {s} is_enabled h =
      if_of {A = Ret × Camera2} (λ r. IsHeld r.1) s.preview_start_deferred _ _ (λ e. h)
        (λ e. log-IsHeld s VendorCall.preview_enabled (refl, refl, refl) h)
  CameraRequest-IsHeld {s} (set_text params) h =
      let text = v.flattened params in
      let t = put_fixed (some text) s in
      log-IsHeld t (VendorCall.set_parameters text) (refl, refl, refl)
        (put_fixed-IsHeld (some text) s h)
  CameraRequest-IsHeld {s} get_text h =
      let params = v.parameters s.log in
      let asked = record s { log = VendorCall.get_parameters ∷ s.log } in
      log-IsHeld asked (VendorCall.put_parameters params) (refl, refl, refl)
        (log-IsHeld s VendorCall.get_parameters (refl, refl, refl) h)
  CameraRequest-IsHeld {s} give_up h = record {
    shown = h.shown;
    windowed = h.windowed;
    deferred = h.deferred;
    released = λ e. refl;
    texts = h.texts;
    in_block = h.in_block;
    no_fault = h.no_fault;
  }

  pub CameraRequests-IsHeld : {s t : Camera2} → CameraRequests s t → IsHeld s → IsHeld t
  CameraRequests-IsHeld here h = h
  CameraRequests-IsHeld (next r st) h = CameraRequest-IsHeld st (CameraRequests-IsHeld r h)
