-- ===== src/Audio/Select.antt =====
-- Device selection and the routing of calls: `set_voice_volume`, `do_routing_for_call` and
-- `select_devices` of audio/audio_hw.c.
pub mod Held
pub mod Switch
pub mod Keeps
pub mod Streams
pub mod Depth
use android_device_samsung_z.Common.{
  ℕ, zero, suc, Bool, true, false, Option, none, some, is_some, List, ◌&&◌, ◌||◌, not, ◌==◌, has,
  if◌then◌else◌,
}
use android_device_samsung_z.Platform.{
  Platform, Call, Ret, success, failed, einval, SoundType, sound_voice, sound_speaker,
  sound_headset, sound_btvoice, AudioPath, path_earpiece, path_headset, path_headphone,
  path_speaker, path_bluetooth, path_bluetooth_no_nr, path_bluetooth_wb, path_bluetooth_wb_no_nr,
  tx_unmute, rx_unmute,
}
use android_device_samsung_z.Ril.{
  ril_set_call_volume, ril_set_call_audio_path, ril_set_mute, ril_set_two_mic_control,
}
use android_device_samsung_z.Audio.SndDevice.{SndDevice, snd_device_none}
use android_device_samsung_z.Audio.State.{
  UsecaseType, pcm_playback, pcm_capture, voice_call, usecase_voice_call, Stream, of_out, of_in,
  AudioUsecase, AudioDevice, is_in_call, Layout, InputView, view_in, view_out_devices,
}
use android_device_samsung_z.Audio.Lookup.{get_usecase_from_id, update_usecase}
use android_device_samsung_z.Audio.Output.{get_output_snd_device}
use android_device_samsung_z.Audio.Input.{active_input_of, get_input_snd_device}
use android_device_samsung_z.Audio.Route.{
  enable_snd_device, disable_snd_device, check_and_route_usecases,
}

-- `adev->primary_output->devices`, with the fault of the dereference beside it.
abbrev pub primary_devices : AudioDevice → ℕ
primary_devices s = elim s.primary_output [ none ↦ 0 | some o ↦ (s.outs o).devices ]

abbrev pub follow_primary : AudioDevice → AudioDevice
follow_primary s = record s { fault = s.fault || not (is_some s.primary_output) }

abbrev pub with_log : AudioDevice → Ret × List Call → AudioDevice
with_log s (rc, log) = record s { log = log }

module _ (p : Platform) where
  sound_type_of : (devices : ℕ) → SoundType
  sound_type_of devices =
      if has devices p.out_all_sco
      then sound_btvoice
      else if has devices p.out_earpiece
      then sound_voice
      else if has devices p.out_speaker
      then sound_speaker
      else if has devices p.out_wired_headset || has devices p.out_wired_headphone
      then sound_headset
      else sound_voice

  unfoldable pub set_voice_volume : AudioDevice → (volume : ℕ) → Ret × AudioDevice
  unfolding sound_type_of ril_set_call_volume
  set_voice_volume s volume =
      let sound_type = sound_type_of (primary_devices s) in
      if is_in_call s.mode
      then (
        success,
        with_log (follow_primary s) (ril_set_call_volume p s.ril s.log sound_type volume),
      )
      else (success, s)

  unfoldable pub call_audio_path : AudioDevice → (out_device : ℕ) → AudioPath
  call_audio_path s out_device =
      if has out_device p.out_all_sco
      then if s.bluetooth_wb
        then if s.bluetooth_nrec then path_bluetooth_wb else path_bluetooth_wb_no_nr
        else if s.bluetooth_nrec
        then path_bluetooth
        else path_bluetooth_no_nr
      else if has out_device p.out_speaker
      then path_speaker
      else if has out_device p.out_earpiece
      then path_earpiece
      else if has out_device p.out_wired_headset
      then path_headset
      else if has out_device p.out_wired_headphone
      then path_headphone
      else path_earpiece

  unfoldable pub do_routing_for_call : AudioDevice → (out_device : ℕ) → AudioDevice
  unfolding set_voice_volume call_audio_path ril_set_two_mic_control ril_set_call_audio_path
  do_routing_for_call s out_device =
      let two_mic = has out_device p.out_earpiece || has out_device p.out_speaker in
      let s = with_log s (ril_set_two_mic_control p s.ril s.log two_mic) in
      let s = with_log s (ril_set_call_audio_path p s.ril s.log (call_audio_path s out_device)) in
      (set_voice_volume s s.volume).1

  -- The end of a selection: RX, and TX unless the microphone is muted, are unmuted.
  unmute : AudioDevice → AudioDevice
  unfolding ril_set_mute
  unmute s =
      let s = with_log s (ril_set_mute p s.ril s.log rx_unmute) in
      if s.mic_mute then s else with_log s (ril_set_mute p s.ril s.log tx_unmute)

abbrev is_voice_call : AudioDevice → AudioUsecase → Bool
is_voice_call s u = elim u.type [ UsecaseType.voice_call ↦ true | _ ↦ s.in_call ]

-- A device that is NONE is neither disabled nor enabled.
pub disable_old : AudioDevice → AudioUsecase → SndDevice → AudioDevice
unfolding disable_snd_device
disable_old s u d = if d == snd_device_none then s else (disable_snd_device s u.mixer_list d).1

pub enable_new : AudioDevice → AudioUsecase → UsecaseType → SndDevice → AudioDevice
unfolding check_and_route_usecases enable_snd_device
enable_new s u type d =
    if d == snd_device_none
    then s
    else (enable_snd_device (check_and_route_usecases s u.id type d) u.mixer_list d).1

abbrev pub set_devices : (out inp : SndDevice) → AudioUsecase → AudioUsecase
set_devices out inp u = record u { out_snd_device = out; in_snd_device = inp }

module _ (p : Platform) (lay : Layout) where
  -- `select_devices` from the comparison with the devices in use on; `u` is the usecase.
  unfoldable pub switch_devices :
      AudioDevice → AudioUsecase → (out inp : SndDevice) → Ret × AudioDevice
  unfolding do_routing_for_call unmute disable_old enable_new
  switch_devices s u out inp =
      let routed =
        if is_voice_call s u
        then do_routing_for_call p s (view_out_devices lay s u.stream)
        else s in
      let off = disable_old (disable_old routed u u.out_snd_device) u u.in_snd_device in
      let on = enable_new (enable_new off u pcm_playback out) u pcm_capture inp in
      let heard = if is_voice_call on u then unmute p on else on in
      if out == u.out_snd_device && inp == u.in_snd_device then (success, s) else (
        success,
        record heard {
          usecase_list = update_usecase u.id (set_devices out inp) heard.usecase_list;
        },
      )

  -- The usecase as it stands when the comparison is made.
  unfoldable pub finish_selection :
      AudioDevice → (uc_id : ℕ) → (out inp : SndDevice) → Ret × AudioDevice
  unfolding switch_devices
  finish_selection s uc_id out inp = elim (get_usecase_from_id s.usecase_list uc_id) [
    | none ↦ (failed einval, s)
    | some u ↦ switch_devices s u out inp
  ]

  abbrev set_usecase_devices : ℕ → ℕ → AudioDevice → AudioDevice
  set_usecase_devices uc_id devices s = record s {
    usecase_list = update_usecase uc_id (λ u. record u { devices = devices }) s.usecase_list;
  }

  -- The devices that a running voice call imposes on the other usecases: output, input.
  unfoldable pub call_devices : AudioDevice → SndDevice × SndDevice
  call_devices s =
      if s.in_call && is_in_call s.mode
      then elim (get_usecase_from_id s.usecase_list usecase_voice_call) [
        | none ↦ (snd_device_none, snd_device_none)
        | some vc ↦ (vc.out_snd_device, vc.in_snd_device)
      ]
      else (snd_device_none, snd_device_none)

  is_primary : AudioDevice → Stream → Bool
  is_primary s (of_out o) = elim s.primary_output [ none ↦ false | some q ↦ o == q ]
  is_primary s (of_in i) = false

  -- The input device of a capture usecase outside a call. The usecase is in the list, so
  -- there is an active input.
  unfoldable pub capture_device : AudioDevice → SndDevice
  capture_device s =
      let source : ℕ = elim (active_input_of lay s) [
        | none ↦ p.source_default
        | some v ↦ v.source
      ] in
      let running : Bool = elim s.primary_output [
        | none ↦ false
        | some o ↦ not (s.outs o).standby
      ] in
      if source == p.source_voice_communication && running
      then get_input_snd_device p lay s (primary_devices s)
      else get_input_snd_device p lay s 0

  -- Whether a playback selection is preceded by one for the active input, and for which usecase.
  unfoldable pub follow_up : AudioDevice → AudioUsecase → Option ℕ
  unfolding is_primary
  follow_up s u = elim (active_input_of lay s) [
    | none ↦ none
    | some v ↦
        if is_primary s u.stream && v.source == p.source_voice_communication
        then some v.usecase
        else none
  ]

  -- The selection by the type of the usecase `u`; `again` is `select_devices` itself.
  unfoldable pub select_by_type :
      (again : AudioDevice → ℕ → AudioDevice)
      → AudioDevice
      → UsecaseType
      → AudioUsecase
      → Ret × AudioDevice
  select_by_type again s UsecaseType.voice_call u =
      let devices = view_out_devices lay s u.stream in
      finish_selection (set_usecase_devices u.id devices s) u.id (get_output_snd_device p s devices)
        (get_input_snd_device p lay s devices)
  select_by_type again s UsecaseType.pcm_playback u =
      let devices = view_out_devices lay s u.stream in
      let s' = set_usecase_devices u.id devices s in
      let forced = (call_devices s).0 in
      let ahead : AudioDevice = elim (follow_up s' u) [ none ↦ s' | some uc_id ↦ again s' uc_id ] in
      if forced == snd_device_none
      then finish_selection ahead u.id (get_output_snd_device p s' devices) snd_device_none
      else finish_selection s' u.id forced snd_device_none
  select_by_type again s UsecaseType.pcm_capture u =
      let devices = (view_in lay s u.stream).devices in
      let forced = (call_devices s).1 in
      let s' = set_usecase_devices u.id devices s in
      finish_selection s' u.id snd_device_none
        (if forced == snd_device_none then capture_device s' else forced)

  -- With no fuel left the recursion has not ended.
  unfoldable pub select_devices : (fuel : ℕ) → AudioDevice → (uc_id : ℕ) → Ret × AudioDevice
  select_devices zero s uc_id = (success, record s { fault = true })
  select_devices (suc fuel) s uc_id = elim (get_usecase_from_id s.usecase_list uc_id) [
    | none ↦ (failed einval, s)
    | some u ↦ select_by_type (λ t id. (select_devices fuel t id).1) s u.type u
  ]

-- A playback usecase is followed by the active input's, which is a capture: two levels.
abbrev pub select_depth : ℕ
select_depth = 2
