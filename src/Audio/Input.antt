-- ===== src/Audio/Input.antt =====
-- `get_input_snd_device` of audio/audio_hw.c.
pub mod Choice
pub mod Band
use android_device_samsung_z.Common.{
  ℕ, Bool, Option, none, some, ◌&&◌, ◌||◌, not, ◌==◌, leb, has, clear, is_some, if◌then◌else◌,
}
use android_device_samsung_z.Platform.{Platform}
use android_device_samsung_z.Audio.SndDevice.{
  SndDevice, snd_device_in_bt_sco_mic, snd_device_in_camcorder_headset_mic,
  snd_device_in_camcorder_mic, snd_device_in_comm_bt_sco_mic, snd_device_in_comm_earpiece_mic,
  snd_device_in_comm_headset_mic, snd_device_in_comm_speaker_mic, snd_device_in_earpiece_mic,
  snd_device_in_headset_mic, snd_device_in_incall_bt_sco_mic, snd_device_in_incall_bt_sco_mic_wb,
  snd_device_in_incall_earpiece_mic, snd_device_in_incall_earpiece_mic_wb,
  snd_device_in_incall_headset_mic, snd_device_in_incall_headset_mic_wb,
  snd_device_in_incall_speaker_mic, snd_device_in_incall_speaker_mic_wb, snd_device_in_speaker_mic,
  snd_device_in_voice_recognition_bt_sco_mic, snd_device_in_voice_recognition_headset_mic,
  snd_device_in_voice_recognition_mic, snd_device_none,
}
use android_device_samsung_z.Audio.State.{
  AudioDevice, is_in_call, is_in_communication, Layout, InputView, view_in,
}
use android_device_samsung_z.Audio.Lookup.{get_usecase_from_type}

-- The active input, if any: the first usecase that PCM_CAPTURE|VOICE_CALL finds, its stream read
-- as a `struct stream_in`.
unfoldable pub active_input_of : Layout → AudioDevice → Option InputView
active_input_of lay s = elim (get_usecase_from_type s.usecase_list 3) [
  | none ↦ none
  | some u ↦ some (view_in lay s u.stream)
]

abbrev source_of : Platform → Option InputView → ℕ
source_of p none = p.source_default
source_of p (some v) = v.source

abbrev pub devices_of : Option InputView → ℕ
devices_of none = 0
devices_of (some v) = v.devices

abbrev pub or_else : SndDevice → SndDevice → SndDevice
or_else d e = if d == snd_device_none then e else d

module _ (p : Platform) where
  -- The microphones of a call; Bluetooth wins over the others.
  incall_input : (wide bluetooth_wb : Bool) → (out_device : ℕ) → SndDevice
  incall_input wide bluetooth_wb out_device =
      if has out_device p.out_all_sco
      then if bluetooth_wb
        then snd_device_in_incall_bt_sco_mic_wb
        else snd_device_in_incall_bt_sco_mic
      else if has out_device p.out_wired_headset
      then if wide then snd_device_in_incall_headset_mic_wb else snd_device_in_incall_headset_mic
      else if has out_device p.out_earpiece || has out_device p.out_wired_headphone
      then if wide then snd_device_in_incall_earpiece_mic_wb else snd_device_in_incall_earpiece_mic
      else if has out_device p.out_speaker
      then if wide then snd_device_in_incall_speaker_mic_wb else snd_device_in_incall_speaker_mic
      else snd_device_none

  comm_input : (active : Bool) → (in_device out_device : ℕ) → SndDevice
  comm_input active in_device out_device =
      if not active
      then snd_device_none
      else if has out_device p.out_bluetooth_sco_headset
      then snd_device_in_comm_bt_sco_mic
      else if has in_device p.in_back_mic
      then snd_device_in_comm_speaker_mic
      else if has in_device p.in_builtin_mic
      then if has out_device p.out_wired_headphone
        then snd_device_in_comm_speaker_mic
        else snd_device_in_comm_earpiece_mic
      else if has in_device p.in_wired_headset
      then snd_device_in_comm_headset_mic
      else snd_device_none

  camcorder_input : (in_device : ℕ) → SndDevice
  camcorder_input in_device =
      if has in_device p.in_wired_headset
      then snd_device_in_camcorder_headset_mic
      else snd_device_in_camcorder_mic

  voice_recognition_input : (in_device : ℕ) → SndDevice
  voice_recognition_input in_device =
      if has in_device p.in_builtin_mic
      then snd_device_in_voice_recognition_mic
      else if has in_device p.in_wired_headset
      then snd_device_in_voice_recognition_headset_mic
      else if has in_device p.in_bluetooth_sco_headset
      then snd_device_in_voice_recognition_bt_sco_mic
      else snd_device_none

  mic_input : (out_device : ℕ) → SndDevice
  mic_input out_device =
      if has out_device p.out_wired_headset
      then snd_device_in_headset_mic
      else if has out_device p.out_earpiece || has out_device p.out_wired_headphone
      then snd_device_in_earpiece_mic
      else if has out_device p.out_speaker
      then snd_device_in_speaker_mic
      else snd_device_none

  -- What follows where no branch above has chosen.
  fallback_input : (in_device out_device : ℕ) → SndDevice
  fallback_input in_device out_device =
      if not (in_device == 0)
        && (not (has in_device p.in_voice_call) && not (has in_device p.in_communication))
      then if has in_device p.in_builtin_mic
        then snd_device_in_earpiece_mic
        else if has in_device p.in_back_mic
        then snd_device_in_speaker_mic
        else if has in_device p.in_wired_headset
        then snd_device_in_headset_mic
        else if has in_device p.in_bluetooth_sco_headset
        then snd_device_in_bt_sco_mic
        else snd_device_in_earpiece_mic
      else if has out_device p.out_earpiece
      then snd_device_in_earpiece_mic
      else if has out_device p.out_wired_headset
      then snd_device_in_headset_mic
      else if has out_device p.out_speaker
      then snd_device_in_speaker_mic
      else if has out_device p.out_wired_headphone
      then snd_device_in_earpiece_mic
      else if has out_device p.out_bluetooth_sco_headset
      then snd_device_in_bt_sco_mic
      else snd_device_in_earpiece_mic

  unfoldable pub get_input_snd_device : Layout → AudioDevice → (out_device : ℕ) → SndDevice
  unfolding incall_input comm_input camcorder_input voice_recognition_input mic_input fallback_input
  get_input_snd_device lay s out_device =
      let active_input = active_input_of lay s in
      let source = source_of p active_input in
      let in_device = clear (devices_of active_input) p.bit_in in
      let comm_device = if has out_device p.out_speaker then p.in_back_mic else in_device in
      if is_in_call s.mode
      then if out_device == 0
        then snd_device_none
        else or_else (incall_input (leb 1 s.wb_amr_type) s.bluetooth_wb out_device)
            (fallback_input in_device out_device)
      else if source == p.source_voice_communication || is_in_communication s.mode
      then or_else (comm_input (is_some active_input) comm_device out_device)
          (fallback_input comm_device out_device)
      else if source == p.source_camcorder
      then or_else (camcorder_input in_device) (fallback_input in_device out_device)
      else if source == p.source_voice_recognition
      then or_else (voice_recognition_input in_device) (fallback_input in_device out_device)
      else if source == p.source_mic
      then or_else (mic_input out_device) (fallback_input in_device out_device)
      else if source == p.source_default
      then snd_device_none
      else fallback_input in_device out_device
