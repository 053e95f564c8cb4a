-- ===== src/Audio/Output.antt =====
-- `get_output_snd_device` of audio/audio_hw.c.
pub mod Choice
use android_device_samsung_z.Common.{
  ℕ, Bool, ◌&&◌, ◌||◌, not, ◌==◌, leb, bit_or, has, popcount, if◌then◌else◌,
}
use android_device_samsung_z.Platform.{Platform}
use android_device_samsung_z.Audio.SndDevice.{
  SndDevice, snd_device_none, snd_device_out_bt_sco, snd_device_out_comm_bt_sco,
  snd_device_out_comm_earpiece, snd_device_out_comm_headphones, snd_device_out_comm_speaker,
  snd_device_out_earpiece, snd_device_out_headphones, snd_device_out_incall_bt_sco,
  snd_device_out_incall_bt_sco_wb, snd_device_out_incall_earpiece,
  snd_device_out_incall_earpiece_wb, snd_device_out_incall_headphones,
  snd_device_out_incall_headphones_wb, snd_device_out_incall_speaker,
  snd_device_out_incall_speaker_wb, snd_device_out_speaker, snd_device_out_speaker_and_headphones,
}
use android_device_samsung_z.Audio.State.{AudioDevice, is_in_call, is_in_communication}

module _ (p : Platform) where
  is_wired : ℕ → Bool
  is_wired devices = has devices p.out_wired_headphone || has devices p.out_wired_headset

  -- The devices of a call; Bluetooth wins over the others.
  unfoldable pub incall_output : (wide bluetooth_wb : Bool) → (devices : ℕ) → SndDevice
  unfolding is_wired
  incall_output wide bluetooth_wb devices =
      if has devices p.out_all_sco
      then if bluetooth_wb then snd_device_out_incall_bt_sco_wb else snd_device_out_incall_bt_sco
      else if is_wired devices
      then if wide then snd_device_out_incall_headphones_wb else snd_device_out_incall_headphones
      else if has devices p.out_speaker
      then if wide then snd_device_out_incall_speaker_wb else snd_device_out_incall_speaker
      else if has devices p.out_earpiece
      then if wide then snd_device_out_incall_earpiece_wb else snd_device_out_incall_earpiece
      else snd_device_none

  comm_output : (devices : ℕ) → SndDevice
  unfolding is_wired
  comm_output devices =
      if is_wired devices
      then snd_device_out_comm_headphones
      else if has devices p.out_all_sco
      then snd_device_out_comm_bt_sco
      else if has devices p.out_speaker
      then snd_device_out_comm_speaker
      else if has devices p.out_earpiece
      then snd_device_out_comm_earpiece
      else snd_device_none

  unfoldable pub single_output : (devices : ℕ) → SndDevice
  unfolding is_wired
  single_output devices =
      if is_wired devices
      then snd_device_out_headphones
      else if has devices p.out_speaker
      then snd_device_out_speaker
      else if has devices p.out_all_sco
      then snd_device_out_bt_sco
      else if has devices p.out_earpiece
      then snd_device_out_earpiece
      else snd_device_none

  -- What follows the two modes: a pair with the speaker, or a single device.
  unfoldable pub plain_output : (devices : ℕ) → SndDevice
  unfolding single_output
  plain_output devices =
      if popcount devices == 2
      then if devices == bit_or p.out_wired_headphone p.out_speaker
          || devices == bit_or p.out_wired_headset p.out_speaker
        then snd_device_out_speaker_and_headphones
        else snd_device_none
      else if popcount devices == 1
      then single_output devices
      else snd_device_none

  unfoldable pub get_output_snd_device : AudioDevice → (devices : ℕ) → SndDevice
  unfolding incall_output comm_output plain_output
  get_output_snd_device s devices =
      let call = incall_output (leb 1 s.wb_amr_type) s.bluetooth_wb devices in
      let comm = comm_output devices in
      if devices == 0 || has devices p.bit_in
      then snd_device_none
      else if is_in_call s.mode && not (call == snd_device_none)
      then call
      else if is_in_communication s.mode && not (comm == snd_device_none)
      then comm
      else plain_output devices
