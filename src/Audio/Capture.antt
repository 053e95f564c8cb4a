-- ===== src/Audio/Capture.antt =====
-- Input streams between standby and capture: `start_input_stream`, `stop_input_stream` and
-- `in_standby` of audio/audio_hw.c. A stream is named by number.
pub mod Paths
pub mod Read
pub mod Standby
pub mod Settled
pub mod Requests
pub mod Delivery
use android_device_samsung_z.Common.{
  ℕ, zero, suc, ◌+◌, Bool, true, false, Option, none, some, is_some, List, [], ◌∷◌, ◌++◌, ◌==◌,
  ◌&&◌, ◌||◌, not, has, if◌then◌else◌,
}
use android_device_samsung_z.Platform.{
  Platform, Call, Ret, success, failed, einval, enomem, eio, usecase_memory, pcm_device_memory,
  is_zero,
}
use android_device_samsung_z.Audio.SndDevice.{snd_device_none}
use android_device_samsung_z.Audio.State.{
  pcm_capture, StreamIn, PcmDevice, PcmConfig, PcmProfile, of_in, AudioUsecase, AudioDevice, Layout,
  update, record_call,
}
use android_device_samsung_z.Audio.Lookup.{
  get_mixer_for_card, get_usecase_from_id, get_pcm_device, remove_usecase,
}
use android_device_samsung_z.Audio.Profiles.{capture_period_size_low_latency}
use android_device_samsung_z.Audio.Route.{disable_snd_device}
use android_device_samsung_z.Audio.Select.{select_devices, select_depth}
use android_device_samsung_z.Audio.Voice.{asked_ready, not_ready}

abbrev pub set_in : ℕ → StreamIn → AudioDevice → AudioDevice
set_in i stream s = record s { ins = update s.ins i stream }

abbrev pub is_empty : List PcmDevice → Bool
is_empty [] = true
is_empty (d ∷ ds) = false

-- A capture without PCM devices is an error after its usecase has gone. The end of the list is
-- `in_release_pcm_devices` with the list's new start.
unfoldable pub stop_input_stream : ℕ → AudioDevice → Ret × AudioDevice
stop_input_stream i s =
    let uc_id = (s.ins i).usecase in
    let s = record s { active_input = none } in
    elim (get_usecase_from_id s.usecase_list uc_id) [
      | none ↦ (failed einval, s)
      | some u ↦
          let s = (disable_snd_device s u.mixer_list u.in_snd_device).1 in
          let s = record s { usecase_list = remove_usecase uc_id s.usecase_list } in
          if is_empty (s.ins i).pcm_dev_list
          then (failed einval, s)
          else (success, set_in i (record (s.ins i) { pcm_dev_list = [] }) s)
    ]

-- The profile at a place of `pcm_devices`, with its period size written.
unfoldable pub set_period_size : List PcmProfile → (place size : ℕ) → List PcmProfile
set_period_size [] place size = []
set_period_size (q ∷ qs) zero size =
    record q { config = record q.config { period_size = size } } ∷ qs
set_period_size (q ∷ qs) (suc place) size = q ∷ set_period_size qs place size

-- `uc_info` of `start_input_stream`; a card without a mixer is a NULL pointer.
abbrev pub new_input_usecase : AudioDevice → ℕ → PcmProfile → AudioUsecase
new_input_usecase s i q = record {
  id = (s.ins i).usecase;
  type = pcm_capture;
  devices = (s.ins i).devices;
  out_snd_device = snd_device_none;
  in_snd_device = snd_device_none;
  stream = of_in i;
  mixer_list = elim (get_mixer_for_card s.mixer_list q.card) [ none ↦ [] | some m ↦ m ∷ [] ];
}

abbrev pub free_resampler : ℕ → AudioDevice → AudioDevice
free_resampler i s =
    if (s.ins i).resampler
    then set_in i (record (s.ins i) { resampler = false })
        (record_call (Call.release_resampler i) s)
    else s

-- The label `error_open` with what follows it.
unfoldable pub error_open : ℕ → AudioDevice → AudioDevice
error_open i s = record (stop_input_stream i (free_resampler i s)).1 { active_input = none }

module _ (p : Platform) where
  -- The profile that is used, and the table: a fast input shortens the period of its profile.
  abbrev pub fast_profile : StreamIn → PcmProfile → PcmProfile
  fast_profile stream q =
      if has stream.input_flags p.input_flag_fast
      then record q { config = record q.config { period_size = capture_period_size_low_latency } }
      else q

  abbrev pub fast_table : StreamIn → ℕ → List PcmProfile → List PcmProfile
  fast_table stream place table =
      if has stream.input_flags p.input_flag_fast
      then set_period_size table place capture_period_size_low_latency
      else table

  -- The new configuration, with the resampler made anew where a rate differs. `ret` is that of
  -- `create_resampler`, which leaves no resampler where it fails.
  unfoldable pub update_config : ℕ → PcmConfig → AudioDevice → Ret × AudioDevice
  update_config i config s =
      let stream = s.ins i in
      let recreate =
        not (stream.config.rate == config.rate) || not (stream.requested_rate == config.rate) in
      let set = set_in i (record stream { config = config }) s in
      let released = free_resampler i set in
      let call = Call.create_resampler config.rate stream.requested_rate config.channels in
      let ret = p.reply released.log call in
      let created = record_call call released in
      if recreate
      then (ret, set_in i (record (created.ins i) { resampler = is_zero ret }) created)
      else (success, set)

  -- From the opening of the PCM on: `ret` is what `create_resampler` returned.
  unfoldable pub open_input : ℕ → (place : ℕ) → PcmProfile → Ret → AudioDevice → Ret × AudioDevice
  open_input i place q ret s =
      let call = Call.pcm_open q.card q.id (p.pcm_in + p.pcm_monotonic) in
      let pcm = p.pointer s.log call in
      let opened = record_call call s in
      let asked = asked_ready p pcm opened in
      let device : PcmDevice = record { pcm_profile = place; pcm = pcm; status = success } in
      let started =
        set_in i
          (record (asked.ins i) {
            pcm_dev_list = device ∷ [];
            proc_buf_size = 0;
            read_buf_size = 0;
            read_buf_frames = 0;
          })
          asked in
      if not_ready p pcm opened
      then (failed eio, error_open i (record_call (Call.pcm_close pcm) asked))
      else (
        ret,
        if (started.ins i).resampler then record_call (Call.reset_resampler i) started else started,
      )

module _ (p : Platform) (lay : Layout) where
  -- The list of PCM devices and the usecase are in place, and the devices are selected.
  unfoldable pub enable_input : ℕ → (place : ℕ) → PcmProfile → AudioDevice → AudioDevice
  enable_input i place q s =
      let device : PcmDevice = record { pcm_profile = place; pcm = none; status = success } in
      let table = fast_table p (s.ins i) place s.pcm_devices in
      let t = record (set_in i (record (s.ins i) { pcm_dev_list = device ∷ [] }) s) {
        pcm_devices = table;
        fault = s.fault || not (is_some (get_mixer_for_card s.mixer_list q.card));
      } in
      let listed = record t { usecase_list = t.usecase_list ++ new_input_usecase s i q ∷ [] } in
      (select_devices p lay select_depth listed (s.ins i).usecase).1

  -- From the two allocations on.
  unfoldable pub start_capture : ℕ → (place : ℕ) → PcmProfile → AudioDevice → Ret × AudioDevice
  start_capture i place q s =
      let (ret, t) = update_config p i q.config (enable_input i place q s) in
      open_input p i place q ret t

  unfoldable pub start_input_stream : ℕ → AudioDevice → Ret × AudioDevice
  start_input_stream i s =
      let active = record s { active_input = some i } in
      elim (get_pcm_device p s.pcm_devices (s.ins i).usecase_type (s.ins i).devices) [
        | none ↦ (failed einval, record active { active_input = none })
        | some (place, profile) ↦
            let q = fast_profile p (s.ins i) profile in
            let shortened = fast_table p (s.ins i) place s.pcm_devices in
            if p.allocates s.log usecase_memory && p.allocates s.log pcm_device_memory
            then start_capture i place q active
            else (failed enomem, record active { active_input = none; pcm_devices = shortened })
      ]
