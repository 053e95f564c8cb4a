-- ===== src/Platform/Aosp.antt =====
-- The constants as the AOSP headers publish them, with an environment in which every call
-- succeeds: the instance at which the tests and examples run.
use android_device_samsung_z.Common.{true, some, ◌*◌, ◌++◌, popcount}
use android_device_samsung_z.Platform.Defs.{Platform, success}

abbrev pub aosp : Platform
aosp = record {
  bit_in = 0x80000000;
  out_earpiece = 0x1;
  out_speaker = 0x2;
  out_wired_headset = 0x4;
  out_wired_headphone = 0x8;
  out_bluetooth_sco_headset = 0x20;
  out_bluetooth_sco_carkit = 0x40;
  out_all_sco = 0x70;
  in_builtin_mic = 0x80000004;
  in_back_mic = 0x80000080;
  in_wired_headset = 0x80000010;
  in_bluetooth_sco_headset = 0x80000008;
  in_voice_call = 0x80000040;
  in_communication = 0x80000001;
  source_default = 0;
  source_mic = 1;
  source_camcorder = 5;
  source_voice_recognition = 6;
  source_voice_communication = 7;
  format_pcm_16_bit = 1;
  channel_out_stereo = 3;
  input_flag_fast = 1;
  output_flag_primary = 2;
  output_flag_deep_buffer = 8;
  pcm_in = 0x10000000;
  pcm_out = 0;
  pcm_monotonic = 8;
  reply = λ log call. success;
  pointer = λ log call. some 1;
  allocates = λ log what. true;
  scale_volume = λ volume steps. steps;
  volume_steps_property = 5;
  channel_count = popcount;
  bytes_per_sample = λ format. 2;
  frame_size = λ format mask. popcount mask * 2;
  adjust_channels = λ buffer in_channels out_channels sample_size. buffer ++ buffer;
  now_us = λ log. 1_000_000;
  available = λ log pcm. 0;
  timestamp = λ log pcm. 0;
}
