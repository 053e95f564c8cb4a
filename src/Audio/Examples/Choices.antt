-- ===== src/Audio/Examples/Choices.antt =====
-- The theorems about the choice of devices, the mixer paths and the searches at concrete states.
use android_device_samsung_z.Common.{
  ℕ, ◌+◌, ◌*◌, ◌/◌, ◌%◌, ◌≤◌, ◌<◌, ◌≡◌, refl, false, none, some, [], ◌∷◌, ◌++◌, ◌==◌, arith,
  if◌then◌else◌,
}
use android_device_samsung_z.Platform.{aosp, success}
use android_device_samsung_z.Audio.SndDevice.{
  SndDevice, snd_device_out_speaker, snd_device_out_headphones,
}
use android_device_samsung_z.Audio.State.{pcm_playback, pcm_capture, type_bits, AudioDevice}
use android_device_samsung_z.Audio.Lookup.{get_pcm_device, get_usecase_from_type}
use android_device_samsung_z.Audio.Lookup.Types.{get_usecase_from_type-playback}
use android_device_samsung_z.Audio.Profiles.{
  pcm_device_capture, initial_pcm_devices, check_input_parameters, get_input_buffer_size,
}
use android_device_samsung_z.Audio.Profiles.BufferSize.{get_input_buffer_size_lem}
use android_device_samsung_z.Audio.Output.{get_output_snd_device}
use android_device_samsung_z.Audio.Input.{get_input_snd_device}
use android_device_samsung_z.Audio.Input.Choice.{IsInput, get_input_snd_device-IsInput}
use android_device_samsung_z.Audio.Input.Band.{
  is_wide_output, is_wide_input, get_input_snd_device-band,
}
use android_device_samsung_z.Audio.Route.{enable_snd_device, disable_snd_device}
use android_device_samsung_z.Audio.Route.Pair.{
  applied, reset, enable_snd_device-log, disable_snd_device-log, disable-enable,
}
use android_device_samsung_z.Audio.Callbacks.Band.{after_messages, audio_set_wb_amr_callback-le}
use android_device_samsung_z.Audio.Examples.{playing, calling, layout}

get_input_snd_device_example : IsInput (get_input_snd_device aosp layout calling 8)
get_input_snd_device_example = get_input_snd_device-IsInput aosp layout calling 8

band_example :
    is_wide_output (get_output_snd_device aosp calling 8)
    ≡ is_wide_input (get_input_snd_device aosp layout calling 8)
band_example = get_input_snd_device-band aosp layout calling 8 refl (λ e. omega arith) refl

enable_snd_device_example : (enable_snd_device playing (0 ∷ []) snd_device_out_headphones).1.log ≡ (
    if playing.snd_dev_ref_cnt snd_device_out_headphones == 0
    then applied (0 ∷ []) snd_device_out_headphones ++ playing.log
    else playing.log)
enable_snd_device_example =
    enable_snd_device-log playing (0 ∷ []) snd_device_out_headphones (omega arith)

disable_snd_device_example : (disable_snd_device playing (0 ∷ []) snd_device_out_speaker).1.log ≡ (
    if playing.snd_dev_ref_cnt snd_device_out_speaker == 1
    then reset (0 ∷ []) snd_device_out_speaker ++ playing.log
    else playing.log)
disable_snd_device_example =
    disable_snd_device-log playing (0 ∷ []) snd_device_out_speaker (omega arith)

disable-enable_example :
    let t = (enable_snd_device playing (0 ∷ []) snd_device_out_speaker).1 in
    let r = (disable_snd_device t (0 ∷ []) snd_device_out_speaker).1 in
    ((e : SndDevice) → r.snd_dev_ref_cnt e ≡ playing.snd_dev_ref_cnt e)
    × (r.usecase_list ≡ playing.usecase_list)
disable-enable_example = disable-enable playing (0 ∷ []) snd_device_out_speaker (omega arith)

get_usecase_from_type_example :
    get_usecase_from_type playing.usecase_list (type_bits pcm_playback) ≡ none
get_usecase_from_type_example = get_usecase_from_type-playback playing.usecase_list

checked : check_input_parameters aosp 44100 1 2 ≡ success
unfolding check_input_parameters
checked = refl

found :
    get_pcm_device aosp (initial_pcm_devices aosp) pcm_capture 0x80000004
    ≡ some (1, pcm_device_capture aosp)
unfolding get_pcm_device
found = refl

-- 1024 frames at 48 kHz are 940 at 44.1 kHz.
get_input_buffer_size_example :
    (frames : ℕ) × (get_input_buffer_size aosp
        (initial_pcm_devices aosp)
        44100
        1
        2
        pcm_capture
        0x80000004
      ≡ frames * 2 * 2)
    × (frames % 16 ≡ 0)
    × (1024 * 44100 / 48000 ≤ frames)
    × (frames < 1024 * 44100 / 48000 + 16)
get_input_buffer_size_example =
    get_input_buffer_size_lem aosp (initial_pcm_devices aosp) 44100 1 2 pcm_capture 0x80000004 1
      (pcm_device_capture aosp) checked found (omega arith)

-- Without the voice processor, in a narrowband call.
abbrev unassisted : AudioDevice
unassisted = record playing { audience_enabled = false; wb_amr_type = 0 }

audio_set_wb_amr_callback_example :
    unassisted.wb_amr_type ≤ (after_messages unassisted (1 ∷ 0 ∷ [])).wb_amr_type
audio_set_wb_amr_callback_example = audio_set_wb_amr_callback-le unassisted (1 ∷ 0 ∷ [])
