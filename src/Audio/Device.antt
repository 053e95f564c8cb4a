-- ===== src/Audio/Device.antt =====
-- The device's own operations of audio/audio_hw.c: `adev_open`, the opening and closing of streams,
-- parameters, mode and mute. A stream that `calloc` gives is a number, `none` where it fails.
pub mod Mixers
pub mod Ready
pub mod Retries
pub mod Streams
pub mod Modes
pub mod Opening
use android_device_samsung_z.Common.{
  ℕ, ◌+◌, Bool, true, false, Option, none, some, is_some, List, [], ◌∷◌, ◌&&◌, ◌==◌, not, has,
  clear, if◌then◌else◌,
}
use android_device_samsung_z.Platform.{
  Platform, Call, Ret, success, failed, einval, eexist, enomem, enosys, is_zero, tx_mute, tx_unmute,
}
use android_device_samsung_z.Ril.{
  Ril, ril_open, ril_connect_if_required, ril_set_pcm_clock_callback, ril_set_wb_amr_callback,
  ril_set_call_clock_stop, ril_set_mute,
}
use android_device_samsung_z.Audio.Capture.Read.{in_standby}
use android_device_samsung_z.Audio.State.{
  Mode, mode_normal, mode_in_call, mode_in_communication, mode_other, UsecaseType, pcm_playback,
  pcm_capture, usecase_audio_playback, usecase_audio_playback_deep_buffer, usecase_audio_capture,
  PcmConfig, PcmProfile, StreamOut, StreamIn, AudioDevice, is_in_call, is_normal,
}
use android_device_samsung_z.Audio.Lookup.{get_usecase_from_id, get_pcm_device}
use android_device_samsung_z.Audio.Profiles.{
  capture_config, deep_buffer_config, check_input_parameters, get_input_buffer_size,
}
use android_device_samsung_z.Audio.Select.{set_voice_volume, with_log}
use android_device_samsung_z.Audio.Voice.{stop_voice_call}
use android_device_samsung_z.Audio.Playback.{set_out, out_standby}
use android_device_samsung_z.Audio.Playback.Write.{
  out_get_sample_rate, out_get_channels, out_get_format,
}
use android_device_samsung_z.Audio.Capture.{set_in}
use android_device_samsung_z.Audio.Device.Mixers.{free_mixer_list, mixer_init}

-- struct audio_config
pub record AudioConfig : Type 0 where
  pub sample_rate : ℕ
  pub channel_mask : ℕ
  pub format : ℕ

abbrev pub capture_default_sampling_rate : ℕ
capture_default_sampling_rate = 48000

module _ (p : Platform) where
  abbrev pub opened_devices : (devices : ℕ) → ℕ
  opened_devices devices = if devices == 0 then p.out_speaker else devices

  -- The stream as `adev_open_output_stream` fills it, from a profile for its devices.
  abbrev pub new_output : (devices flags : ℕ) → AudioConfig → PcmProfile → StreamOut
  new_output devices flags config q =
      let deep = has flags p.output_flag_deep_buffer in
      let pcm = if deep then deep_buffer_config else q.config in
      record {
        config = pcm;
        pcm_dev_list = [];
        standby = true;
        sample_rate = pcm.rate;
        channel_mask = p.channel_out_stereo;
        format = config.format;
        devices = opened_devices devices;
        flags = flags;
        usecase = if deep then usecase_audio_playback_deep_buffer else usecase_audio_playback;
        muted = false;
        written = 0;
        proc_buf_size = 0;
        last_write_time_us = 0;
      }

  -- From the test of AUDIO_OUTPUT_FLAG_PRIMARY on. A stream that is refused is freed, also where
  -- `primary_output` is it already.
  unfoldable pub claim_output : ℕ → StreamOut → AudioDevice → Ret × AudioDevice
  claim_output o out s =
      let primary = has out.flags p.output_flag_primary in
      let claimed = if primary then record s { primary_output = some o } else s in
      if primary && is_some s.primary_output
      then (failed eexist, s)
      else if is_some (get_usecase_from_id s.usecase_list out.usecase)
      then (failed eexist, claimed)
      else (success, set_out o out claimed)

  -- The result, `*stream_out`, and `*config`, which is written with success only.
  unfoldable pub adev_open_output_stream :
      (memory : Option ℕ)
      → (devices flags : ℕ) → AudioConfig
      → AudioDevice
      → Ret × Option ℕ × AudioConfig × AudioDevice
  adev_open_output_stream none devices flags config s = (failed enomem, none, config, s)
  adev_open_output_stream (some o) devices flags config s =
      elim (get_pcm_device p s.pcm_devices pcm_playback (opened_devices devices)) [
        | none ↦ (failed einval, none, config, s)
        | some (place, q) ↦
            let out = new_output devices flags config q in
            let (ret, t) = claim_output o out s in
            let filled : AudioConfig = record {
              sample_rate = out_get_sample_rate out;
              channel_mask = out_get_channels out;
              format = out_get_format out;
            } in
            if is_zero ret then (success, some o, filled, t) else (ret, none, config, t)
      ]

-- The stream is freed; `primary_output` stays.
unfoldable pub adev_close_output_stream : ℕ → AudioDevice → AudioDevice
adev_close_output_stream o s = out_standby o s

-- The stream is freed.
unfoldable pub adev_close_input_stream : ℕ → AudioDevice → AudioDevice
adev_close_input_stream i s = in_standby i s

-- Of each key whether it is there, and whether its value is AUDIO_PARAMETER_VALUE_ON.
unfoldable pub adev_set_parameters : (bt_nrec bt_wb : Option Bool) → AudioDevice → Ret × AudioDevice
adev_set_parameters bt_nrec bt_wb s =
    let nrec : Bool = elim bt_nrec [ none ↦ s.bluetooth_nrec | some on ↦ on ] in
    let wb : Bool = elim bt_wb [ none ↦ s.bluetooth_wb | some on ↦ on ] in
    (success, record s { bluetooth_nrec = nrec; bluetooth_wb = wb })

-- `adev_set_master_volume`, `adev_get_master_volume`, `adev_set_master_mute` and
-- `adev_get_master_mute`
abbrev pub adev_not_supported : Ret
adev_not_supported = failed enosys

abbrev pub adev_init_check : Ret
adev_init_check = success

-- The call of `start_voice_call` is commented out.
abbrev pub audio_set_pcm_clock_callback : (clock_state : ℕ) → AudioDevice → AudioDevice
audio_set_pcm_clock_callback clock_state s = s

abbrev pub same_mode : Mode → Mode → Bool
same_mode mode_normal mode_normal = true
same_mode mode_in_call mode_in_call = true
same_mode mode_in_communication mode_in_communication = true
same_mode (mode_other m) (mode_other n) = m == n
same_mode _ _ = false

abbrev pub with_ril : AudioDevice → Ret × Ril × List Call → AudioDevice
with_ril s (rc, ril, log) = record s { ril = ril; log = log }

module _ (p : Platform) where
  unfoldable pub adev_set_voice_volume : (volume : ℕ) → AudioDevice → Ret × AudioDevice
  adev_set_voice_volume volume s = set_voice_volume p (record s { volume = volume }) volume

  -- The connection with its callbacks, made as the mode becomes AUDIO_MODE_IN_CALL.
  unfoldable pub register_callbacks : AudioDevice → AudioDevice
  register_callbacks s =
      let s = with_log s (ril_connect_if_required p s.ril s.log) in
      let s = with_ril s (ril_set_pcm_clock_callback p s.ril s.log true) in
      with_ril s (ril_set_wb_amr_callback p s.ril s.log true)

  unfoldable pub adev_set_mode : Mode → AudioDevice → Ret × AudioDevice
  adev_set_mode mode s =
      let called = if is_in_call mode then register_callbacks s else s in
      let moved = if same_mode s.mode mode then s else record called { mode = mode } in
      let stopped = with_log moved (ril_set_call_clock_stop p moved.ril moved.log) in
      if is_normal moved.mode && moved.in_call
      then (success, (stop_voice_call p stopped).1)
      else (success, moved)

  unfoldable pub adev_set_mic_mute : (state : Bool) → AudioDevice → Ret × AudioDevice
  adev_set_mic_mute state s =
      let mute_condition = if state then tx_mute else tx_unmute in
      let muted = record s { mic_mute = state } in
      let (err, log) = ril_set_mute p s.ril s.log mute_condition in
      if is_in_call s.mode then (err, record muted { log = log }) else (success, muted)

  abbrev pub adev_get_mic_mute : AudioDevice → Ret × Bool
  adev_get_mic_mute s = (success, s.mic_mute)

  abbrev pub adev_get_input_buffer_size : AudioConfig → AudioDevice → ℕ
  adev_get_input_buffer_size config s =
      get_input_buffer_size p s.pcm_devices config.sample_rate config.format
        (p.channel_count config.channel_mask) pcm_capture p.in_builtin_mic

  -- The stream as `adev_open_input_stream` fills it.
  abbrev pub new_input : (devices flags source : ℕ) → AudioConfig → PcmProfile → StreamIn
  new_input devices flags source config q = record {
    config = q.config;
    pcm_dev_list = [];
    standby = true;
    source = source;
    devices = devices;
    main_channels = config.channel_mask;
    usecase = usecase_audio_capture;
    usecase_type = pcm_capture;
    input_flags =
        if config.sample_rate == capture_default_sampling_rate
        then flags
        else clear flags p.input_flag_fast;
    requested_rate = config.sample_rate;
    resampler = false;
    proc_buf_size = 0;
    read_buf_size = 0;
    read_buf_frames = 0;
    read_buf = [];
    read_status = success;
    reads = 0;
    frames_read = 0;
    last_read_time_us = 0;
  }

  unfoldable pub adev_open_input_stream :
      (memory : Option ℕ)
      → (devices flags source : ℕ) → AudioConfig
      → AudioDevice
      → Ret × Option ℕ × AudioDevice
  adev_open_input_stream memory devices flags source config s =
      let checked =
        check_input_parameters p config.sample_rate config.format
          (p.channel_count config.channel_mask) in
      if not (is_zero checked)
      then (failed einval, none, s)
      else elim (get_pcm_device p s.pcm_devices pcm_capture devices) [
        | none ↦ (failed einval, none, s)
        | some (place, q) ↦ elim memory [
          | none ↦ (failed enomem, none, s)
          | some i ↦ (success, some i, set_in i (new_input devices flags source config q) s)
        ]
      ]

-- The value of audio_hal.force_voice_config, if it is set.
pub data VoiceConfig : Type 0 where
  narrow wide other_config : VoiceConfig

-- The end of `adev_open`, from `property_get_bool` on.
unfoldable pub configure : (uses_audience : Bool) → Option VoiceConfig → AudioDevice → AudioDevice
configure true config s = record s { audience_enabled = true; wb_amr_type = 0 }
configure false none s = s
configure false (some narrow) s = record s { forced_voice_config = true; wb_amr_type = 0 }
configure false (some wide) s = record s { forced_voice_config = true; wb_amr_type = 1 }
configure false (some other_config) s = record s { forced_voice_config = true }
