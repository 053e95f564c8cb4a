-- ===== src/Camera/Examples.antt =====
-- A legacy camera of a vendor whose calls succeed.
use android_device_samsung_z.Common.{◌≡◌, refl, true, false, none, some, []}
use android_device_samsung_z.Platform.{success}
use android_device_samsung_z.Camera.{
  Camera2, camera2_set_preview_window, camera2_start_preview, camera2_set_parameters,
  camera2_device_open, camera2_device_close, check_vendor_module, prepare,
}
use android_device_samsung_z.Camera.Calls.{Vendor}
use android_device_samsung_z.Camera.Runs.{IsIdle, CameraRequests, CameraRequest}
use android_device_samsung_z.Camera.Closing.{
  IsAnswered, IsClosed, camera2_device_open-IsAnswered, camera2_device_close-IsClosed,
}

abbrev vendor : Vendor
vendor = record {
  reply = λ log call. success;
  number = λ log. 2;
  parameters = λ log. 5;
  flattened = λ settings. settings;
}

abbrev unopened : Camera2
unopened = record {
  has_module = false;
  preview_window = none;
  preview_start_deferred = false;
  user = none;
  num_cameras = 0;
  fixed_set_params = none;
  block_size = 0;
  device = record { id = 0; camera_released = false };
  fault = false;
  log = [];
}

unopened-IsIdle : IsIdle unopened
unopened-IsIdle = record { shown = refl; no_window = refl; not_deferred = refl; no_fault = refl }

abbrev ready : Camera2
ready = (camera2_device_open vendor true true true (some 7) (some 1) unopened).1

open_camera_example :
    let (rc, t) = camera2_device_open vendor true true true (some 7) (some 1) unopened in
    IsAnswered (some 7) (some 1) unopened rc t
open_camera_example =
    camera2_device_open-IsAnswered vendor true true true (some 7) (some 1) unopened unopened-IsIdle

-- A preview that is started before there is a window, and parameters.
abbrev previewed : Camera2
previewed =
    let waiting = (camera2_start_preview vendor ready).1 in
    let shown = (camera2_set_preview_window vendor (some 9) waiting).1 in
    (camera2_set_parameters vendor 5 shown).1

abbrev previews : CameraRequests vendor ready previewed
previews =
    CameraRequests.next
      (CameraRequests.next (CameraRequests.next CameraRequests.here CameraRequest.start)
        (CameraRequest.preview_window (some 9)))
      (CameraRequest.set_text 5)

close_camera_example :
    ((camera2_device_close previewed).0 ≡ success) × IsClosed (camera2_device_close previewed).1
unfolding camera2_device_open check_vendor_module prepare
close_camera_example =
    camera2_device_close-IsClosed vendor true true true 7 1 unopened unopened-IsIdle refl refl
      previews
