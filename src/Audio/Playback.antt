-- ===== src/Audio/Playback.antt =====
-- Output streams between standby and playback: the PCM devices of a stream, its usecase, and
-- `start_output_stream`, `stop_output_stream` and `out_standby` of audio/audio_hw.c. A stream is
-- named by number.
pub mod Paths
pub mod Write
pub mod Standby
pub mod Settled
pub mod Requests
pub mod Calls
pub mod Position
use android_device_samsung_z.Common.{
  ℕ, ◌+◌, ◌*◌, ◌/◌, ◌%◌, ◌^◌, Bool, true, false, Option, none, some, is_some, List, [], ◌∷◌, ◌++◌,
  ◌==◌, ◌||◌, not, has, get_elem?, if◌then◌else◌,
}
use android_device_samsung_z.Platform.{
  Platform, Call, Ret, success, failed, einval, enomem, eio, usecase_memory, is_zero,
}
use android_device_samsung_z.Audio.SndDevice.{snd_device_none}
use android_device_samsung_z.Audio.State.{
  pcm_playback, StreamOut, PcmDevice, PcmProfile, Stream, of_out, of_in, AudioUsecase, AudioDevice,
  Layout, update, record_call,
}
use android_device_samsung_z.Audio.Lookup.{
  get_mixer_for_card, get_usecase_from_id, get_pcm_device, remove_usecase,
}
use android_device_samsung_z.Audio.Profiles.{sound_deep_buffer_device}
use android_device_samsung_z.Audio.Route.{disable_snd_device}
use android_device_samsung_z.Audio.Select.{select_devices, select_depth}
use android_device_samsung_z.Audio.Voice.{asked_ready, not_ready}

abbrev pub set_out : ℕ → StreamOut → AudioDevice → AudioDevice
set_out o out s = record s { outs = update s.outs o out }

abbrev pub set_pcm_dev_list : ℕ → List PcmDevice → AudioDevice → AudioDevice
set_pcm_dev_list o devices s = set_out o (record (s.outs o) { pcm_dev_list = devices }) s

-- The loop of `out_close_pcm_devices`.
unfoldable pub close_loop : List PcmDevice → AudioDevice → List PcmDevice × AudioDevice
close_loop [] s = ([], s)
close_loop (d ∷ ds) s =
    let closed : AudioDevice = elim d.pcm [
      | none ↦ s
      | some pcm ↦ record_call (Call.pcm_close (some pcm)) s
    ] in
    let (rest, t) = close_loop ds closed in (record d { pcm = none } ∷ rest, t)

unfoldable pub out_close_pcm_devices : ℕ → AudioDevice → AudioDevice
out_close_pcm_devices o s =
    let (devices, t) = close_loop (s.outs o).pcm_dev_list s in set_pcm_dev_list o devices t

-- `uc_release_pcm_devices` on a usecase that leaves the list next: the devices of its stream go.
-- The stream of a usecase with an output's id is a `struct stream_out`.
unfoldable pub uc_release_pcm_devices : Stream → AudioDevice → AudioDevice
uc_release_pcm_devices (of_out o) s = set_pcm_dev_list o [] s
uc_release_pcm_devices (of_in i) s = record s { fault = true }

unfoldable pub disable_output_path_l : ℕ → AudioDevice → Ret × AudioDevice
disable_output_path_l o s =
    let uc_id = (s.outs o).usecase in
    elim (get_usecase_from_id s.usecase_list uc_id) [
      | none ↦ (failed einval, s)
      | some u ↦
          let s =
            uc_release_pcm_devices u.stream
              (disable_snd_device s u.mixer_list u.out_snd_device).1 in
          (success, record s { usecase_list = remove_usecase uc_id s.usecase_list })
    ]

abbrev pub stop_output_stream : ℕ → AudioDevice → Ret × AudioDevice
stop_output_stream o s = disable_output_path_l o s

unfoldable pub do_out_standby_l : ℕ → AudioDevice → Ret × AudioDevice
do_out_standby_l o s =
    let s = set_out o (record (s.outs o) { standby = true }) s in
    stop_output_stream o (out_close_pcm_devices o s)

unfoldable pub out_standby : ℕ → AudioDevice → AudioDevice
out_standby o s = if (s.outs o).standby then s else (do_out_standby_l o s).1

module _ (p : Platform) where
  -- `uc_info` of `enable_output_path_l` once `uc_select_pcm_devices` has chosen its mixer.
  abbrev pub new_output_usecase : AudioDevice → ℕ → (mixers : List ℕ) → AudioUsecase
  new_output_usecase s o mixers = record {
    id = (s.outs o).usecase;
    type = pcm_playback;
    devices = (s.outs o).devices;
    out_snd_device = snd_device_none;
    in_snd_device = snd_device_none;
    stream = of_out o;
    mixer_list = mixers;
  }

  -- `uc_select_pcm_devices` on a usecase whose mixer list is still empty: the mixers, and the
  -- state. A card without a mixer is a NULL pointer that the code follows; the memory of the PCM
  -- device, which the code does not check, is given.
  unfoldable pub uc_select_pcm_devices : AudioDevice → ℕ → List ℕ × AudioDevice
  uc_select_pcm_devices s o =
      elim (get_pcm_device p s.pcm_devices pcm_playback (s.outs o).devices) [
        | none ↦ ([], set_pcm_dev_list o [] s)
        | some (place, q) ↦
            let device : PcmDevice = record { pcm_profile = place; pcm = none; status = success } in
            let s = set_pcm_dev_list o (device ∷ []) s in
            elim (get_mixer_for_card s.mixer_list q.card) [
              | none ↦ ([], record s { fault = true })
              | some m ↦ (m ∷ [], s)
            ]
      ]

  -- The PCM that a device of the stream opens; every place in a device is one of `pcm_devices`.
  abbrev pub open_call : StreamOut → List PcmProfile → PcmDevice → Call
  open_call out table d = elim (get_elem? table d.pcm_profile) [
    | none ↦ Call.pcm_open 0 0 (p.pcm_out + p.pcm_monotonic)
    | some q ↦
        Call.pcm_open q.card
          (if has out.flags p.output_flag_deep_buffer then sound_deep_buffer_device else q.id)
          (p.pcm_out + p.pcm_monotonic)
  ]

  -- The loop of `out_open_pcm_devices`: the devices after it, with what comes before them.
  unfoldable pub open_loop :
      StreamOut → (before after : List PcmDevice) → AudioDevice → Ret × List PcmDevice × AudioDevice
  open_loop out before [] s = (success, before, s)
  open_loop out before (d ∷ ds) s =
      let call = open_call out s.pcm_devices d in
      let pcm = p.pointer s.log call in
      let opened = record_call call s in
      let asked = asked_ready p pcm opened in
      let rest = open_loop out (before ++ record d { pcm = pcm } ∷ []) ds asked in
      if not_ready p pcm opened
      then (failed eio, before ++ record d { pcm = none } ∷ ds, asked)
      else rest

  unfoldable pub out_open_pcm_devices : ℕ → AudioDevice → Ret × AudioDevice
  out_open_pcm_devices o s =
      let (ret, devices, t) = open_loop (s.outs o) [] (s.outs o).pcm_dev_list s in
      let t = set_pcm_dev_list o devices t in
      if is_zero ret then (ret, t) else (ret, out_close_pcm_devices o t)

module _ (p : Platform) (lay : Layout) where
  -- The usecase is filled and listed, and its devices are selected.
  unfoldable pub add_output_usecase : ℕ → AudioDevice → AudioDevice
  add_output_usecase o s =
      let (mixers, t) = uc_select_pcm_devices p s o in
      let listed = record t {
        usecase_list = t.usecase_list ++ new_output_usecase p s o mixers ∷ [];
      } in
      (select_devices p lay select_depth listed (s.outs o).usecase).1

  unfoldable pub enable_output_path_l : ℕ → AudioDevice → Ret × AudioDevice
  enable_output_path_l o s =
      if p.allocates s.log usecase_memory
      then (success, add_output_usecase o s)
      else (failed enomem, s)

  unfoldable pub start_output_stream : ℕ → AudioDevice → Ret × AudioDevice
  start_output_stream o s =
      let (enabled, t) = enable_output_path_l o s in
      let (opened, r) = out_open_pcm_devices p o t in
      if not (is_zero enabled)
      then (enabled, t)
      else if not (is_zero opened)
      then (opened, (stop_output_stream o r).1)
      else (success, r)
