-- ===== src/Audio/Input/Choice.antt =====
-- Which sound devices `get_input_snd_device` can choose.
use android_device_samsung_z.Common.{
  ℕ, ◌<◌, ◌≤◌, ◌≡◌, ◌⊎◌, Bool, has, clear, leb, is_some, if◌then◌else◌, arith,
}
use android_device_samsung_z.Platform.{Platform}
use android_device_samsung_z.Audio.SndDevice.{
  SndDevice, snd_device_none, snd_device_in_begin, snd_device_max,
}
use android_device_samsung_z.Audio.State.{AudioDevice, Layout}
use android_device_samsung_z.Audio.Input.{
  active_input_of, devices_of, or_else, incall_input, comm_input, camcorder_input,
  voice_recognition_input, mic_input, fallback_input, get_input_snd_device,
}

-- NONE or a capture device.
abbrev pub IsInput : SndDevice → Type 0
IsInput d = (d ≡ snd_device_none) ⊎ ((snd_device_in_begin ≤ d) × (d < snd_device_max))

or_else-IsInput : (d e : SndDevice) → IsInput d → IsInput e → IsInput (or_else d e)
or_else-IsInput d e hd he = ground arith

module _ (p : Platform) where
  incall_input-IsInput : (wide wb : Bool) (out : ℕ) → IsInput (incall_input p wide wb out)
  unfolding incall_input
  incall_input-IsInput wide wb out = ground arith

  comm_input-IsInput : (active : Bool) (inp out : ℕ) → IsInput (comm_input p active inp out)
  unfolding comm_input
  comm_input-IsInput active inp out = ground arith

  camcorder_input-IsInput : (inp : ℕ) → IsInput (camcorder_input p inp)
  unfolding camcorder_input
  camcorder_input-IsInput inp = ground arith

  voice_recognition_input-IsInput : (inp : ℕ) → IsInput (voice_recognition_input p inp)
  unfolding voice_recognition_input
  voice_recognition_input-IsInput inp = ground arith

  mic_input-IsInput : (out : ℕ) → IsInput (mic_input p out)
  unfolding mic_input
  mic_input-IsInput out = ground arith

  fallback_input-IsInput : (inp out : ℕ) → IsInput (fallback_input p inp out)
  unfolding fallback_input
  fallback_input-IsInput inp out = ground arith

  -- `get_input_snd_device` chooses NONE or a capture device of the enumeration, for any devices,
  -- source and mode.
  pub get_input_snd_device-IsInput :
      (lay : Layout) (s : AudioDevice) (out : ℕ) → IsInput (get_input_snd_device p lay s out)
  unfolding get_input_snd_device
  get_input_snd_device-IsInput lay s out =
      let inp = clear (devices_of (active_input_of lay s)) p.bit_in in
      let comm = if has out p.out_speaker then p.in_back_mic else inp in
      let base = fallback_input-IsInput inp out in
      ground (
        arith,
        or_else-IsInput (incall_input p (leb 1 s.wb_amr_type) s.bluetooth_wb out)
            (fallback_input p inp out)
            (incall_input-IsInput (leb 1 s.wb_amr_type) s.bluetooth_wb out) base,
        or_else-IsInput (comm_input p (is_some (active_input_of lay s)) comm out)
            (fallback_input p comm out)
            (comm_input-IsInput (is_some (active_input_of lay s)) comm out)
            (fallback_input-IsInput comm out),
        or_else-IsInput (camcorder_input p inp) (fallback_input p inp out)
            (camcorder_input-IsInput inp) base,
        or_else-IsInput (voice_recognition_input p inp) (fallback_input p inp out)
            (voice_recognition_input-IsInput inp) base,
        or_else-IsInput (mic_input p out) (fallback_input p inp out) (mic_input-IsInput out) base,
        base,
      )
