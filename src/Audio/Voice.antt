-- ===== src/Audio/Voice.antt =====
-- Voice calls and their Bluetooth sessions: `start_voice_session_bt_sco`,
-- `stop_voice_session_bt_sco`, `start_voice_call` and `stop_voice_call` of audio/audio_hw.c.
pub mod Sessions
pub mod Calls
pub mod Ends
pub mod Frame
pub mod Handles
pub mod Sco
pub mod Balance
use android_device_samsung_z.Common.{
  ℕ, ◌+◌, Bool, true, false, Option, none, some, is_some, List, [], ◌∷◌, ◌++◌, ◌||◌, not, has,
  if◌then◌else◌,
}
use android_device_samsung_z.Platform.{
  Platform, Call, Ret, success, failed, einval, enomem, usecase_memory, is_zero,
}
use android_device_samsung_z.Ril.{ril_set_call_clock_stop}
use android_device_samsung_z.Audience.{es_start_voice_session, es_stop_voice_session}
use android_device_samsung_z.Audio.SndDevice.{snd_device_none}
use android_device_samsung_z.Audio.State.{
  voice_call, usecase_voice_call, Stream, of_out, AudioUsecase, AudioDevice, Layout, record_call,
}
use android_device_samsung_z.Audio.Lookup.{get_mixer_for_card, get_usecase_from_id, remove_usecase}
use android_device_samsung_z.Audio.Profiles.{
  sound_card, sound_playback_sco_device, sound_capture_sco_device, sound_playback_voice_device,
  sound_capture_voice_device,
}
use android_device_samsung_z.Audio.Route.{disable_snd_device}
use android_device_samsung_z.Audio.Select.{
  primary_devices, follow_primary, with_log, select_devices, select_depth,
}

abbrev pub close_pcm : Option ℕ → AudioDevice → AudioDevice
close_pcm pcm s = record_call (Call.pcm_close pcm) s

-- `pcm_stop` and `pcm_close` on a handle that is not NULL.
abbrev pub stop_pcm : Option ℕ → AudioDevice → AudioDevice
stop_pcm none s = s
stop_pcm (some h) s = close_pcm (some h) (record_call (Call.pcm_stop h) s)

unfoldable pub stop_voice_session_bt_sco : AudioDevice → AudioDevice
stop_voice_session_bt_sco s =
    let s = record (stop_pcm s.pcm_sco_rx s) { pcm_sco_rx = none } in
    let s = record (stop_pcm s.pcm_sco_tx s) { pcm_sco_tx = none } in
    record s { in_call_sco = false }

module _ (p : Platform) where
  -- `pcm_open`: the handle, and the log with the call.
  unfoldable pub open_pcm : (device flags : ℕ) → AudioDevice → Option ℕ × AudioDevice
  open_pcm device flags s =
      let call = Call.pcm_open sound_card device flags in (p.pointer s.log call, record_call call s)

  -- `pcm != NULL && !pcm_is_ready(pcm)`; a ready handle is answered by a nonzero value.
  unfoldable pub not_ready : Option ℕ → AudioDevice → Bool
  not_ready none s = false
  not_ready (some h) s = is_zero (p.reply s.log (Call.pcm_is_ready h))

  unfoldable pub asked_ready : Option ℕ → AudioDevice → AudioDevice
  asked_ready none s = s
  asked_ready (some h) s = record_call (Call.pcm_is_ready h) s

  -- The labels `err_sco_tx` and `err_sco_rx`.
  unfoldable pub err_sco_tx : AudioDevice → AudioDevice
  err_sco_tx s = record (close_pcm s.pcm_sco_tx s) { pcm_sco_tx = none; in_call_sco = false }

  unfoldable pub err_sco_rx : AudioDevice → AudioDevice
  unfolding err_sco_tx
  err_sco_rx s = err_sco_tx (record (close_pcm s.pcm_sco_rx s) { pcm_sco_rx = none })

  -- From the opening of the SCO PCMs on, TX first.
  unfoldable pub open_sco_rx : AudioDevice → AudioDevice
  unfolding open_pcm
  open_sco_rx s =
      let (rx, s) = open_pcm sound_playback_sco_device (p.pcm_out + p.pcm_monotonic) s in
      let s = record s { pcm_sco_rx = rx } in
      let asked = asked_ready rx s in
      if not_ready rx s
      then err_sco_rx asked
      else record_call (Call.pcm_start asked.pcm_sco_rx)
          (record_call (Call.pcm_start asked.pcm_sco_tx) asked)

  unfoldable pub open_sco : AudioDevice → AudioDevice
  unfolding open_pcm
  open_sco s =
      let (tx, s) = open_pcm sound_capture_sco_device (p.pcm_in + p.pcm_monotonic) s in
      let s = record s { pcm_sco_tx = tx } in
      let asked = asked_ready tx s in if not_ready tx s then err_sco_tx asked else open_sco_rx asked

  unfoldable pub start_voice_session_bt_sco : AudioDevice → AudioDevice
  unfolding stop_voice_session_bt_sco
  start_voice_session_bt_sco s =
      let stopped = if s.in_comm_sco then stop_voice_session_bt_sco s else s in
      if s.in_call_sco
      then s
      else if is_some s.pcm_sco_rx || is_some s.pcm_sco_tx
      then s
      else open_sco (record stopped { in_call_sco = true })

  -- `uc_info` of `start_voice_call`; `adev_get_mixer_for_card` finds the card's mixer.
  abbrev pub new_voice_usecase : AudioDevice → (primary : ℕ) → AudioUsecase
  new_voice_usecase s primary = record {
    id = usecase_voice_call;
    type = voice_call;
    devices = primary_devices s;
    out_snd_device = snd_device_none;
    in_snd_device = snd_device_none;
    stream = of_out primary;
    mixer_list = elim (get_mixer_for_card s.mixer_list sound_card) [ none ↦ [] | some m ↦ m ∷ [] ];
  }

  -- The label `exit`, where the call could not be started.
  unfoldable pub voice_exit : AudioDevice → AudioDevice
  voice_exit s =
      let s = record (close_pcm s.pcm_voice_rx s) { pcm_voice_rx = none } in
      let s = record (close_pcm s.pcm_voice_tx s) { pcm_voice_tx = none } in
      let s = if s.in_call_sco then stop_voice_session_bt_sco s else s in
      record (with_log s (ril_set_call_clock_stop p s.ril s.log)) { in_call = false }

  -- Both voice PCMs are started, and then the voice processor.
  unfoldable pub start_voice_pcms : AudioDevice → AudioDevice
  start_voice_pcms s =
      let started =
        record_call (Call.pcm_start s.pcm_voice_rx)
          (record_call (Call.pcm_start s.pcm_voice_tx) s) in
      if started.audience_enabled
      then with_log (follow_primary started) (
          es_start_voice_session p started.log (primary_devices started) started.wb_amr_type
            started.bluetooth_wb)
      else started

  -- From the opening of the voice PCMs on, TX first; `ret` is still 0 on every path.
  unfoldable pub open_voice_rx : AudioDevice → Ret × AudioDevice
  unfolding open_pcm
  open_voice_rx s =
      let (rx, s) = open_pcm sound_playback_voice_device p.pcm_out s in
      let s = record s { pcm_voice_rx = rx } in
      let asked = asked_ready rx s in
      if not_ready rx s then (success, voice_exit asked) else (success, start_voice_pcms asked)

  unfoldable pub open_voice : AudioDevice → Ret × AudioDevice
  unfolding open_pcm
  open_voice s =
      let (tx, s) = open_pcm sound_capture_voice_device p.pcm_in s in
      let s = record s { pcm_voice_tx = tx } in
      let asked = asked_ready tx s in
      if not_ready tx s then (success, voice_exit asked) else open_voice_rx asked

module _ (p : Platform) (lay : Layout) where
  -- The selection with the new usecase, and the call marked as running.
  abbrev enter_call : AudioDevice → (primary : ℕ) → AudioDevice
  enter_call s primary =
      let listed = record s {
        usecase_list = s.usecase_list ++ new_voice_usecase p s primary ∷ [];
      } in
      record (select_devices p lay select_depth listed usecase_voice_call).1 { in_call = true }

  -- `start_voice_call` with the memory for its usecase, on the primary output's number.
  unfoldable pub start_call_on : (primary : ℕ) → AudioDevice → Ret × AudioDevice
  start_call_on primary s =
      let s' = record s {
        fault = s.fault || not (is_some (get_mixer_for_card s.mixer_list sound_card));
      } in
      let t = enter_call s' primary in
      let sco =
        if has (primary_devices t) p.out_all_sco then start_voice_session_bt_sco p t else t in
      if is_some t.pcm_voice_rx || is_some t.pcm_voice_tx then (success, t) else open_voice p sco

  -- Without a primary output or a mixer the C follows a NULL pointer.
  unfoldable pub start_allocated_call : Option ℕ → AudioDevice → Ret × AudioDevice
  start_allocated_call none s = (success, record s { fault = true })
  start_allocated_call (some primary) s = start_call_on primary s

  unfoldable pub start_voice_call : AudioDevice → Ret × AudioDevice
  start_voice_call s =
      if p.allocates s.log usecase_memory
      then start_allocated_call s.primary_output s
      else (failed enomem, voice_exit p s)

-- The end of `stop_voice_call`: the usecase is taken out of the list.
unfoldable pub end_voice_usecase : AudioDevice → Ret × AudioDevice
end_voice_usecase s = elim (get_usecase_from_id s.usecase_list usecase_voice_call) [
  | none ↦ (failed einval, s)
  | some u ↦
      let s = (disable_snd_device s u.mixer_list u.out_snd_device).1 in
      let s = (disable_snd_device s u.mixer_list u.in_snd_device).1 in
      (
        success,
        record s {
          usecase_list = remove_usecase usecase_voice_call s.usecase_list;
          in_call = false;
        },
      )
]

module _ (p : Platform) where
  -- The beginning of `stop_voice_call`: the PCMs and the voice processor.
  unfoldable pub close_voice : AudioDevice → AudioDevice
  close_voice s =
      let s = if s.in_call_sco then stop_voice_session_bt_sco s else s in
      let s = record (stop_pcm s.pcm_voice_rx s) { pcm_voice_rx = none } in
      let s = record (stop_pcm s.pcm_voice_tx s) { pcm_voice_tx = none } in
      if s.audience_enabled then record s { log = es_stop_voice_session p s.log } else s

  unfoldable pub stop_voice_call : AudioDevice → Ret × AudioDevice
  stop_voice_call s = end_voice_usecase (close_voice s)
