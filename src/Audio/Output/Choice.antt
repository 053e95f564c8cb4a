-- ===== src/Audio/Output/Choice.antt =====
-- Which sound devices `get_output_snd_device` can choose.
use android_device_samsung_z.Common.{ℕ, ◌<◌, Bool, leb, arith}
use android_device_samsung_z.Platform.{Platform}
use android_device_samsung_z.Audio.SndDevice.{snd_device_in_begin}
use android_device_samsung_z.Audio.State.{AudioDevice}
use android_device_samsung_z.Audio.Output.{
  incall_output, comm_output, single_output, plain_output, get_output_snd_device,
}

module _ (p : Platform) where
  incall_output-lt :
      (wide wb : Bool) (devices : ℕ) → incall_output p wide wb devices < snd_device_in_begin
  unfolding incall_output
  incall_output-lt wide wb devices = ground arith

  comm_output-lt : (devices : ℕ) → comm_output p devices < snd_device_in_begin
  unfolding comm_output
  comm_output-lt devices = ground arith

  single_output-lt : (devices : ℕ) → single_output p devices < snd_device_in_begin
  unfolding single_output
  single_output-lt devices = ground arith

  plain_output-lt : (devices : ℕ) → plain_output p devices < snd_device_in_begin
  unfolding plain_output
  plain_output-lt devices = ground (arith, single_output-lt devices)

  -- `get_output_snd_device` chooses NONE or a playback device of the enumeration, for any devices
  -- and mode.
  pub get_output_snd_device-lt :
      (s : AudioDevice) (devices : ℕ) → get_output_snd_device p s devices < snd_device_in_begin
  unfolding get_output_snd_device
  get_output_snd_device-lt s devices = ground (
    arith,
    incall_output-lt (leb 1 s.wb_amr_type) s.bluetooth_wb devices,
    comm_output-lt devices,
    plain_output-lt devices,
  )
