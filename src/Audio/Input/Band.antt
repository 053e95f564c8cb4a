-- ===== src/Audio/Input/Band.antt =====
-- The bands of the two directions of a call.
use android_device_samsung_z.Common.{clear, ℕ, ◌≡◌, ◌≢◌, Bool, false, ◌==◌, ◌||◌, has, leb, arith}
use android_device_samsung_z.Platform.{Platform}
use android_device_samsung_z.Audio.SndDevice.{
  SndDevice, snd_device_none, snd_device_out_incall_bt_sco_wb, snd_device_out_incall_headphones_wb,
  snd_device_out_incall_speaker_wb, snd_device_out_incall_earpiece_wb,
  snd_device_in_incall_bt_sco_mic_wb, snd_device_in_incall_headset_mic_wb,
  snd_device_in_incall_speaker_mic_wb, snd_device_in_incall_earpiece_mic_wb,
}
use android_device_samsung_z.Audio.Output.{
  incall_output, plain_output, single_output, get_output_snd_device,
}
use android_device_samsung_z.Audio.Input.{
  active_input_of, devices_of, incall_input, fallback_input, get_input_snd_device,
}
use android_device_samsung_z.Audio.State.{mode_in_call, AudioDevice, Layout}

-- The wideband devices of a call.
abbrev pub is_wide_output : SndDevice → Bool
is_wide_output d =
    d == snd_device_out_incall_bt_sco_wb
    || (d == snd_device_out_incall_headphones_wb
        || (d == snd_device_out_incall_speaker_wb || d == snd_device_out_incall_earpiece_wb))

abbrev pub is_wide_input : SndDevice → Bool
is_wide_input d =
    d == snd_device_in_incall_bt_sco_mic_wb
    || (d == snd_device_in_incall_headset_mic_wb
        || (d == snd_device_in_incall_speaker_mic_wb || d == snd_device_in_incall_earpiece_mic_wb))

module _ (p : Platform) where
  -- For any devices both directions choose a call device or neither does, and the bands agree.
  incall_input-incall_output :
      (wide bluetooth_wb : Bool) (devices : ℕ)
      → let out = incall_output p wide bluetooth_wb devices in
        let inp = incall_input p wide bluetooth_wb devices in
        ((out == snd_device_none) ≡ (inp == snd_device_none))
        × (is_wide_output out ≡ is_wide_input inp)
  unfolding incall_output incall_input
  incall_input-incall_output wide bluetooth_wb devices = (ground arith, ground arith)

  plain_output-narrow : (devices : ℕ) → is_wide_output (plain_output p devices) ≡ false
  unfolding plain_output single_output
  plain_output-narrow devices = ground arith

  fallback_input-narrow : (inp out : ℕ) → is_wide_input (fallback_input p inp out) ≡ false
  unfolding fallback_input
  fallback_input-narrow inp out = ground arith

  -- In a call, for output devices that are not none and carry no input bit, the microphone that
  -- `get_input_snd_device` chooses is a wideband one exactly where the output that
  -- `get_output_snd_device` chooses is.
  pub get_input_snd_device-band :
      (lay : Layout) (s : AudioDevice) (devices : ℕ)
      → s.mode ≡ mode_in_call
      → devices ≢ 0
      → has devices p.bit_in ≡ false
      → is_wide_output (get_output_snd_device p s devices)
        ≡ is_wide_input (get_input_snd_device p lay s devices)
  unfolding get_output_snd_device get_input_snd_device
  get_input_snd_device-band lay s devices call some_device out = ground (
    arith,
    call,
    incall_input-incall_output (leb 1 s.wb_amr_type) s.bluetooth_wb devices,
    plain_output-narrow devices,
    fallback_input-narrow (clear (devices_of (active_input_of lay s)) p.bit_in) devices,
  )
