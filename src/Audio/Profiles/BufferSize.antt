-- ===== src/Audio/Profiles/BufferSize.antt =====
-- The sizes that `get_input_buffer_size` answers.
use android_device_samsung_z.Common.{
  ℕ, ◌+◌, ◌*◌, ◌/◌, ◌%◌, ◌^◌, ◌≤◌, ◌<◌, ◌≡◌, refl, some, List, arith,
}
use android_device_samsung_z.Platform.{Platform, success}
use android_device_samsung_z.Audio.State.{UsecaseType, PcmProfile}
use android_device_samsung_z.Audio.Lookup.{get_pcm_device}
use android_device_samsung_z.Audio.Profiles.{
  check_input_parameters, rounded_frames, get_input_buffer_size,
}

round_up :
    (size : ℕ)
    → ((size + 15) / 16 * 16 % 16 ≡ 0)
      × (size ≤ (size + 15) / 16 * 16)
      × ((size + 15) / 16 * 16 < size + 16)
round_up size = (omega arith, omega arith, omega arith)

modulo_small : (n : ℕ) → n < 2 ^ 32 → n % 2 ^ 32 ≡ n
modulo_small n h = omega arith

module _ (p : Platform) (table : List PcmProfile) (sample_rate format channel_count : ℕ)
    (type : UsecaseType) (devices : ℕ) where
  check_input_parameters_lem :
      check_input_parameters p sample_rate format channel_count ≡ success
      → (format ≡ p.format_pcm_16_bit)
        × (1 ≤ channel_count)
        × (channel_count ≤ 2)
        × (8000 ≤ sample_rate)
        × (sample_rate ≤ 48000)
  unfolding check_input_parameters
  check_input_parameters_lem h = ground arith

  -- Where the format passes the check, a profile is found and the product of its period and the
  -- rate is below 2 ^ 32, the size is that of a number of frames which is a multiple of 16, at
  -- least the whole number of frames of a resampled period and less than 16 above it.
  pub get_input_buffer_size_lem :
      (place : ℕ) (q : PcmProfile)
      → check_input_parameters p sample_rate format channel_count ≡ success
      → get_pcm_device p table type devices ≡ some (place, q)
      → q.config.period_size * sample_rate < 2 ^ 32
      → let exact = q.config.period_size * sample_rate / q.config.rate in
        (frames : ℕ) × (get_input_buffer_size p table sample_rate format channel_count type devices
          ≡ frames * channel_count * 2)
        × (frames % 16 ≡ 0)
        × (exact ≤ frames)
        × (frames < exact + 16)
  unfolding get_input_buffer_size rounded_frames
  get_input_buffer_size_lem place q ok found fits =
      let exact = q.config.period_size * sample_rate / q.config.rate in
      let (whole, low, high) = round_up exact in
      (
        (exact + 15) / 16 * 16,
        rw
            (
              ok,
              found,
              get_input_buffer_size,
              rounded_frames,
              modulo_small (q.config.period_size * sample_rate) fits,
            )
            refl,
        whole,
        low,
        high,
      )
