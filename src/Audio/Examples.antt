-- ===== src/Audio/Examples.antt =====
-- The audio theorems at a device that plays on the speaker.
mod Streams
mod Inputs
mod Device
mod Choices
use android_device_samsung_z.Common.{
  ◌⊎◌, ℕ, ◌+◌, ◌*◌, ◌/◌, ◌%◌, ◌≤◌, ◌<◌, ◌≡◌, refl, true, false, none, some, [], ◌∷◌, ◌++◌, ◌==◌,
  All, arith, if◌then◌else◌,
}
use android_device_samsung_z.Platform.{is_zero, aosp, success, failed, einval}
use android_device_samsung_z.Audio.SndDevice.{
  snd_device_in_earpiece_mic, SndDevice, snd_device_none, snd_device_out_speaker,
  snd_device_out_headphones, snd_device_in_begin,
}
use android_device_samsung_z.Audio.State.{
  of_in, mode_normal, mode_in_call, pcm_playback, pcm_capture, type_bits, usecase_audio_playback,
  usecase_audio_playback_deep_buffer, StreamOut, StreamIn, of_out, AudioUsecase, AudioDevice,
  Layout,
}
use android_device_samsung_z.Audio.Lookup.{get_pcm_device, get_usecase_from_type, remove_usecase}
use android_device_samsung_z.Audio.Lookup.Types.{get_usecase_from_type-playback}
use android_device_samsung_z.Audio.Profiles.{
  playback_config, capture_config, pcm_device_capture, initial_pcm_devices, check_input_parameters,
  get_input_buffer_size,
}
use android_device_samsung_z.Audio.Profiles.BufferSize.{get_input_buffer_size_lem}
use android_device_samsung_z.Audio.Output.{get_output_snd_device}
use android_device_samsung_z.Audio.Output.Choice.{get_output_snd_device-lt}
use android_device_samsung_z.Audio.Input.{get_input_snd_device}
use android_device_samsung_z.Audio.Input.Choice.{IsInput, get_input_snd_device-IsInput}
use android_device_samsung_z.Audio.Input.Band.{
  is_wide_output, is_wide_input, get_input_snd_device-band,
}
use android_device_samsung_z.Audio.Route.{
  enable_snd_device, disable_snd_device, check_and_route_usecases,
}
use android_device_samsung_z.Audio.Route.Invariant.{IsShaped, IsRouted}
use android_device_samsung_z.Audio.Route.Backend.{IsRoutedTo}
use android_device_samsung_z.Audio.Route.Reroute.{check_and_route-IsRoutedTo}
use android_device_samsung_z.Audio.Route.Members.{IsOff}
use android_device_samsung_z.Audio.Route.Pair.{
  applied, reset, enable_snd_device-log, disable_snd_device-log, disable-enable,
}
use android_device_samsung_z.Audio.Select.{select_devices, select_depth}
use android_device_samsung_z.Audio.Select.Keeps.{select_devices-Keeps}
use android_device_samsung_z.Audio.Select.Switch.{Keeps}
use android_device_samsung_z.Audio.Playback.{out_standby, start_output_stream}
use android_device_samsung_z.Audio.Playback.Paths.{
  IsOutput, start_output_stream-outcome, out_standby-IsOff,
}
use android_device_samsung_z.Audio.Capture.{start_input_stream, stop_input_stream}
use android_device_samsung_z.Audio.Capture.Paths.{
  IsCapture, Unmade, start_input_stream-outcome, stop_input_stream-IsOff,
}
use android_device_samsung_z.Audio.Callbacks.Band.{after_messages, audio_set_wb_amr_callback-le}
use android_device_samsung_z.Audio.Voice.{
  start_voice_session_bt_sco, start_voice_call, stop_voice_call,
}
use android_device_samsung_z.Audio.Voice.Handles.{IsBalanced, IsScoAnswered}
use android_device_samsung_z.Audio.Voice.Sco.{start_voice_session_bt_sco-IsScoAnswered}
use android_device_samsung_z.Audio.Voice.Calls.{IsAnswered, start_voice_call-IsListed}
use android_device_samsung_z.Audio.Voice.Ends.{
  IsEnded, IsClosed, stop_voice_call-IsClosed, stop_voice_call-start_voice_call,
}

-- The primary output plays on the speaker and is asked for the headphones.
abbrev output : StreamOut
output = record {
  config = playback_config;
  pcm_dev_list = [];
  standby = false;
  sample_rate = 48000;
  channel_mask = 3;
  format = 1;
  devices = 8;
  flags = 2;
  usecase = usecase_audio_playback;
  muted = false;
  written = 0;
  proc_buf_size = 0;
  last_write_time_us = 0;
}

abbrev input : StreamIn
input = record {
  config = capture_config;
  pcm_dev_list = [];
  standby = true;
  source = 1;
  devices = 0x80000004;
  main_channels = 16;
  usecase = 3;
  usecase_type = pcm_capture;
  input_flags = 0;
  requested_rate = 48000;
  resampler = false;
  proc_buf_size = 0;
  read_buf_size = 0;
  read_buf_frames = 0;
  read_buf = [];
  read_status = success;
  reads = 0;
  frames_read = 0;
  last_read_time_us = 0;
}

abbrev usecase_of : ℕ → AudioUsecase
usecase_of id = record {
  id = id;
  type = pcm_playback;
  devices = 2;
  out_snd_device = snd_device_out_speaker;
  in_snd_device = snd_device_none;
  stream = of_out 0;
  mixer_list = 0 ∷ [];
}

-- Two playback usecases share the speaker.
abbrev playing : AudioDevice
playing = record {
  mixer_list = 0 ∷ [];
  mode = mode_normal;
  active_input = none;
  primary_output = some 0;
  mic_mute = false;
  in_call = false;
  in_call_sco = false;
  in_comm_sco = false;
  volume = 0;
  bluetooth_nrec = false;
  bluetooth_wb = false;
  audience_enabled = true;
  forced_voice_config = false;
  wb_amr_type = 1;
  ril = record {
    client = some 7;
    volume_steps_max = 5;
    wb_amr_callback = true;
    clock_state_callback = true;
  };
  pcm_voice_rx = none;
  pcm_voice_tx = none;
  pcm_sco_rx = none;
  pcm_sco_tx = none;
  snd_dev_ref_cnt = λ d. if d == snd_device_out_speaker then 2 else 0;
  usecase_list =
      usecase_of usecase_audio_playback ∷ usecase_of usecase_audio_playback_deep_buffer ∷ [];
  outs = λ o. output;
  ins = λ i. input;
  pcm_devices = initial_pcm_devices aosp;
  log = [];
  fault = false;
}

abbrev calling : AudioDevice
calling = record playing { mode = mode_in_call }

abbrev layout : Layout
layout = record {
  source_of_out = λ s o. 0;
  devices_of_out = λ s o. 0;
  usecase_of_out = λ s o. 0;
  devices_of_in = λ s i. 0;
}

usecase_of-IsShaped : (id : ℕ) → IsShaped (usecase_of id)
usecase_of-IsShaped id = record {
  out_named = omega arith;
  in_named = omega arith;
  playback_only = λ e. refl;
  capture_only = λ e. cc;
}

playing-IsRouted : IsRouted playing
playing-IsRouted = record {
  counted = λ e. ground arith;
  shaped = (
    usecase_of-IsShaped usecase_audio_playback,
    (usecase_of-IsShaped usecase_audio_playback_deep_buffer, tt),
  );
  distinct = (refl, (refl, tt));
}

calling-IsRouted : IsRouted calling
calling-IsRouted = record {
  counted = playing-IsRouted.counted;
  shaped = playing-IsRouted.shaped;
  distinct = playing-IsRouted.distinct;
}

select_devices_example :
    Keeps playing (select_devices aosp layout select_depth playing usecase_audio_playback).1
select_devices_example =
    select_devices-Keeps aosp layout select_depth playing usecase_audio_playback playing-IsRouted

check_and_route_example :
    All
      (λ u. IsRoutedTo pcm_playback snd_device_out_headphones u)
      (remove_usecase usecase_audio_playback
        (check_and_route_usecases playing usecase_audio_playback pcm_playback
          snd_device_out_headphones).usecase_list)
check_and_route_example =
    check_and_route-IsRoutedTo playing usecase_audio_playback pcm_playback snd_device_out_headphones

start_voice_call_example :
    let (rc, t) = start_voice_call aosp layout calling in IsAnswered aosp calling rc t
start_voice_call_example =
    start_voice_call-IsListed aosp layout calling 0 calling-IsRouted refl refl

call_example :
    let (rc, t) = stop_voice_call aosp (start_voice_call aosp layout calling).1 in
    (((true ≡ true) × (rc ≡ success)) ⊎ (true ≡ false) × (rc ≡ failed einval))
    × IsEnded t
    × IsClosed t
    × IsBalanced aosp calling t
call_example = stop_voice_call-start_voice_call aosp layout calling 0 calling-IsRouted refl refl

start_sco_example :
    IsBalanced aosp calling (start_voice_session_bt_sco aosp calling)
    × IsScoAnswered aosp calling (start_voice_session_bt_sco aosp calling)
start_sco_example = start_voice_session_bt_sco-IsScoAnswered aosp calling

-- No stream plays.
abbrev idle : AudioDevice
idle = record playing { usecase_list = []; snd_dev_ref_cnt = λ d. 0 }

idle-IsRouted : IsRouted idle
idle-IsRouted = record { counted = λ e. refl; shaped = tt; distinct = tt }

start_output_stream_example :
    let (rc, t) = start_output_stream aosp layout 0 idle in
    ((rc ≡ success) × IsOutput 0 t) ⊎ (is_zero rc ≡ false) × IsOff 0 t
start_output_stream_example = start_output_stream-outcome aosp layout 0 idle idle-IsRouted refl

start_input_stream_example :
    let (rc, t) = start_input_stream aosp layout 0 playing in
    ((rc ≡ success) × IsCapture 3 t)
    ⊎ (is_zero rc ≡ false) × IsOff 3 t
    ⊎ Unmade aosp × (is_zero rc ≡ false) × IsCapture 3 t × ((t.ins 0).resampler ≡ false)
start_input_stream_example = start_input_stream-outcome aosp layout 0 playing playing-IsRouted refl
