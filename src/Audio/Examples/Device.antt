-- ===== src/Audio/Examples/Device.antt =====
-- The theorems about the device's own operations at concrete states.
use android_device_samsung_z.Common.{
  ◌⊎◌, ◌+◌, ◌≤◌, ◌≡◌, refl, true, false, none, some, [], ◌∷◌, has, ◌==◌, if◌then◌else◌, arith,
}
use android_device_samsung_z.Platform.{success, failed, eexist, is_zero, aosp}
use android_device_samsung_z.Audio.State.{mode_normal, UsecaseType, usecase_voice_call, AudioDevice}
use android_device_samsung_z.Audio.Profiles.{initial_pcm_devices}
use android_device_samsung_z.Audio.SndDevice.{snd_device_out_speaker}
use android_device_samsung_z.Audio.Voice.Calls.{IsListed}
use android_device_samsung_z.Audio.Device.{adev_open_output_stream, adev_set_mode}
use android_device_samsung_z.Audio.Device.Mixers.{mixer_init}
use android_device_samsung_z.Audio.Device.Modes.{IsTracked, IsMoved, adev_set_mode-IsMoved}
use android_device_samsung_z.Audio.Device.Opening.{
  World, Request, IsOpened, adev_open, adev_open-IsOpened,
}
use android_device_samsung_z.Audio.Device.Retries.{opens, mixer_init-le}
use android_device_samsung_z.Audio.Device.Streams.{adev_open_output_stream-primary}
use android_device_samsung_z.Audio.Examples.{usecase_of, output, input, playing, calling}
use android_device_samsung_z.Audio.Examples.Streams.{ready, config}

-- A call runs on the speaker.
abbrev speaking : AudioDevice
speaking = record calling {
  in_call = true;
  usecase_list = record (usecase_of usecase_voice_call) { type = UsecaseType.voice_call } ∷ [];
  snd_dev_ref_cnt = λ d. if d == snd_device_out_speaker then 1 else 0;
}

speaking-IsListed : IsListed speaking
speaking-IsListed = record {
  routed = record {
    counted = λ e. ground arith;
    shaped = (
      record {
        out_named = omega arith;
        in_named = omega arith;
        playback_only = λ e. refl;
        capture_only = λ e. cc;
      },
      tt,
    );
    distinct = (refl, tt);
  };
  listed = refl;
}

speaking-IsTracked : IsTracked ready speaking
speaking-IsTracked = record { routed = speaking-IsListed.routed; calls = λ on. speaking-IsListed }

set_mode_example :
    IsMoved ready mode_normal speaking
      (adev_set_mode ready mode_normal speaking).0
      (adev_set_mode ready mode_normal speaking).1
set_mode_example = adev_set_mode-IsMoved ready mode_normal speaking speaking-IsTracked

abbrev world : World
world = record {
  outs = λ o. output;
  ins = λ i. input;
  pcm_devices = initial_pcm_devices aosp;
  ril = record {
    client = none;
    volume_steps_max = 0;
    wb_amr_callback = false;
    clock_state_callback = false;
  };
  log = [];
  ref_count = 0;
}

abbrev request : Request
request = record {
  name_matches = true;
  memory = true;
  ref_cnt_memory = true;
  mixer_memory = λ card. true;
  uses_audience = true;
  voice_config = none;
}

open_example :
    let (rc, device, log, ref_count) = adev_open ready request world in
    ((rc ≡ success) × ((s : AudioDevice) × (device ≡ some s) × IsOpened ready s))
    ⊎ (is_zero rc ≡ false) × (device ≡ none) × (ref_count ≡ 0)
open_example = adev_open-IsOpened ready request world

mixer_example :
    opens 0 (mixer_init ready false (λ card. true) (initial_pcm_devices aosp) []).2
    ≤ 10 + 1 + opens 0 []
mixer_example = mixer_init-le ready false (λ card. true) 0 (initial_pcm_devices aosp) []

-- The usecase of the new stream is in the list.
primary_example :
    let s = record playing { primary_output = none } in
    let (rc, stream, filled, t) = adev_open_output_stream ready (some 1) 2 2 config s in
    (t.primary_output ≡ none)
    ⊎ (s.primary_output ≡ none)
      × (has 2 2 ≡ true)
      × (t.primary_output ≡ some 1)
      × ((rc ≡ success) × (stream ≡ some 1) ⊎ (rc ≡ failed eexist) × (stream ≡ none))
primary_example =
    adev_open_output_stream-primary ready (some 1) 2 2 config
      (record playing { primary_output = none })
