-- ===== src/Audio/Examples/Inputs.antt =====
-- The theorems about input streams at a device where nothing is recorded and every PCM opens.
use android_device_samsung_z.Common.{◌+◌, refl, false, some, [], ◌∷◌, arith}
use android_device_samsung_z.Platform.{success}
use android_device_samsung_z.Audio.State.{PcmDevice, AudioDevice}
use android_device_samsung_z.Audio.Reader.{Source}
use android_device_samsung_z.Audio.Reader.Fifo.{IsReader}
use android_device_samsung_z.Audio.Capture.Read.{Resampler, in_standby, in_set_parameters, in_read}
use android_device_samsung_z.Audio.Capture.Settled.{IsSettled}
use android_device_samsung_z.Audio.Capture.Requests.{
  InputRequests, InputRequest, InputRequests-IsSettled,
}
use android_device_samsung_z.Audio.Capture.Delivery.{IsDirect, IsDelivered, in_read-IsDelivered}
use android_device_samsung_z.Audio.Examples.{input, playing, idle, idle-IsRouted, layout}
use android_device_samsung_z.Audio.Examples.Streams.{ready}

abbrev whole : Source
whole = λ k. (success, k ∷ (k + 100) ∷ [])

abbrev mute_resampler : Resampler
mute_resampler = λ r frames. ([], r)

-- Nothing is recorded.
abbrev silent : AudioDevice
silent = idle

silent-IsSettled : IsSettled 0 silent
silent-IsSettled = record {
  routed = idle-IsRouted;
  capturing = λ e. absurd (cc e);
  idle = λ e. refl;
}

abbrev moved : AudioDevice
moved = (in_set_parameters ready layout 0 (some 7) (some 0x80000080) silent).1

requests_input : InputRequests ready layout whole mute_resampler 0 silent (in_standby 0 moved)
requests_input =
    InputRequests.next
      (InputRequests.next InputRequests.here
        (InputRequest.parameters silent (some 7) (some 0x80000080)))
      (InputRequest.standby moved)

requests_input_example : IsSettled 0 (in_standby 0 moved)
requests_input_example =
    InputRequests-IsSettled ready layout (λ log in_rate out_rate channels. refl) whole
      mute_resampler 0 requests_input silent-IsSettled

-- A stream that captures two channels in periods of two frames.
abbrev microphone : PcmDevice
microphone = record { pcm_profile = 1; pcm = some 1; status = success }

abbrev recording : AudioDevice
recording = record playing {
  ins = λ i. record input {
    config = record input.config { period_size = 2 };
    pcm_dev_list = microphone ∷ [];
    standby = false;
    main_channels = 12;
  };
}

recording-IsDirect : IsDirect ready layout whole mute_resampler 0 recording
recording-IsDirect = record {
  up = refl;
  direct = refl;
  open_pcm = refl;
  same_channels = refl;
  heard = refl;
  ready = IsReader.used_up refl (omega arith);
}

read_example :
    IsDelivered ready layout whole mute_resampler 0 12 recording
      (in_read ready layout whole mute_resampler 0 12 recording)
read_example =
    in_read-IsDelivered ready layout whole mute_resampler 0 12 recording recording-IsDirect
      (record { some_frame = omega arith; succeeds = λ k. refl; fills = λ k. refl })
