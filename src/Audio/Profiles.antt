-- ===== src/Audio/Profiles.antt =====
-- The PCM configurations and profiles of audio/audio_hw.c, and the checks on an input's format.
pub mod BufferSize
use android_device_samsung_z.Common.{
  ℕ, ◌+◌, ◌-◌, ◌*◌, ◌/◌, ◌%◌, ◌^◌, Bool, none, some, List, [], ◌∷◌, not, ◌||◌, ◌==◌, ltb, bit_or,
  if◌then◌else◌,
}
use android_device_samsung_z.Platform.{Platform, Ret, success, failed, einval, is_zero}
use android_device_samsung_z.Audio.State.{
  UsecaseType, pcm_playback, pcm_capture, PcmConfig, PcmProfile,
}
use android_device_samsung_z.Audio.Lookup.{get_pcm_device}

abbrev pub sound_card : ℕ
sound_card = 0

abbrev pub sound_deep_buffer_device : ℕ
sound_deep_buffer_device = 3

abbrev pub sound_playback_device : ℕ
sound_playback_device = 6

abbrev pub sound_playback_sco_device : ℕ
sound_playback_sco_device = 2

abbrev pub sound_capture_device : ℕ
sound_capture_device = 0

abbrev pub sound_capture_sco_device : ℕ
sound_capture_sco_device = 2

abbrev pub sound_playback_voice_device : ℕ
sound_playback_voice_device = 1

abbrev pub sound_capture_voice_device : ℕ
sound_capture_voice_device = 1

abbrev pub capture_period_size_low_latency : ℕ
capture_period_size_low_latency = 256

-- PLAYBACK_START_THRESHOLD and PLAYBACK_STOP_THRESHOLD of 2 periods of 256 frames
abbrev pub playback_config : PcmConfig
playback_config = record {
  channels = 2;
  rate = 48000;
  period_size = 256;
  period_count = 2;
  start_threshold = 256 * 2 - 1;
  stop_threshold = 256 * (2 + 2);
  avail_min = 1;
}

abbrev pub capture_config : PcmConfig
capture_config = record {
  channels = 2;
  rate = 48000;
  period_size = 1024;
  period_count = 2;
  start_threshold = 1;
  stop_threshold = 0;
  avail_min = 0;
}

-- The configuration of pcm_device_deep_buffer.
abbrev pub deep_buffer_config : PcmConfig
deep_buffer_config = record {
  channels = 2;
  rate = 48000;
  period_size = 480;
  period_count = 8;
  start_threshold = 480 / 4;
  stop_threshold = 0x7fffffff;
  avail_min = 480 / 4;
}

module _ (p : Platform) where
  abbrev pub pcm_device_playback : PcmProfile
  pcm_device_playback = record {
    config = playback_config;
    card = sound_card;
    id = sound_playback_device;
    type = pcm_playback;
    devices =
        bit_or p.out_wired_headset (
          bit_or p.out_wired_headphone
            (bit_or p.out_speaker (bit_or p.out_earpiece p.out_all_sco)));
  }

  abbrev pub pcm_device_capture : PcmProfile
  pcm_device_capture = record {
    config = capture_config;
    card = sound_card;
    id = sound_capture_device;
    type = pcm_capture;
    devices =
        bit_or p.in_builtin_mic
          (bit_or p.in_wired_headset (bit_or p.in_back_mic p.in_bluetooth_sco_headset));
  }

  abbrev pub pcm_device_playback_spk_and_headset : PcmProfile
  pcm_device_playback_spk_and_headset = record {
    config = playback_config;
    card = sound_card;
    id = sound_playback_device;
    type = pcm_playback;
    devices = bit_or p.out_speaker (bit_or p.out_wired_headset p.out_wired_headphone);
  }

  -- `pcm_devices` as the program starts.
  abbrev pub initial_pcm_devices : List PcmProfile
  initial_pcm_devices =
      pcm_device_playback ∷ pcm_device_capture ∷ pcm_device_playback_spk_and_headset ∷ []

  abbrev is_known_rate : ℕ → Bool
  is_known_rate rate =
      rate == 8000
      || (rate == 11025
          || (rate == 12000
              || (rate == 16000
                  || (rate == 22050
                      || (rate == 24000 || (rate == 32000 || (rate == 44100 || rate == 48000)))))))

  unfoldable pub check_input_parameters : (sample_rate format channel_count : ℕ) → Ret
  check_input_parameters sample_rate format channel_count =
      if not (format == p.format_pcm_16_bit)
      then failed einval
      else if ltb channel_count 1 || ltb 2 channel_count
      then failed einval
      else if is_known_rate sample_rate
      then success
      else failed einval

  -- `period_size * sample_rate` is an unsigned 32-bit product. A sample of the one format that
  -- passes the check has two bytes.
  unfoldable pub rounded_frames : (period_size sample_rate rate : ℕ) → ℕ
  rounded_frames period_size sample_rate rate =
      let size = period_size * sample_rate % 2 ^ 32 / rate in (size + 15) / 16 * 16

  unfoldable pub get_input_buffer_size :
      List PcmProfile → (sample_rate format channel_count : ℕ) → UsecaseType → (devices : ℕ) → ℕ
  unfolding check_input_parameters rounded_frames
  get_input_buffer_size table sample_rate format channel_count type devices =
      if not (is_zero (check_input_parameters sample_rate format channel_count))
      then 0
      else elim (get_pcm_device p table type devices) [
        | none ↦ 0
        | some (place, q) ↦
            rounded_frames q.config.period_size sample_rate q.config.rate * channel_count * 2
      ]
