-- ===== src/Audio/Examples/Streams.antt =====
-- The theorems about output streams at a device where nothing plays and every PCM opens.
use android_device_samsung_z.Common.{
  ◌⊎◌, ℕ, ◌+◌, ◌-◌, ◌*◌, ◌/◌, ◌%◌, ◌^◌, ◌≡◌, refl, true, false, none, some, List, [], ◌∷◌, length,
  leb, if◌then◌else◌, arith,
}
use android_device_samsung_z.Platform.{
  Platform, Call, Ret, success, failed, enodata, code, aosp, is_zero,
}
use android_device_samsung_z.Audio.State.{PcmDevice, AudioDevice}
use android_device_samsung_z.Audio.Route.Members.{IsOff}
use android_device_samsung_z.Audio.Select.{select_devices, select_depth}
use android_device_samsung_z.Audio.Select.Depth.{IsListening, select_devices-ends}
use android_device_samsung_z.Audio.Voice.Calls.{IsListed, IsRefused}
use android_device_samsung_z.Audio.Playback.{out_standby}
use android_device_samsung_z.Audio.Playback.Write.{
  out_write, out_set_parameters, out_get_presentation_position, write_devices, write_loop,
  write_device, device_write,
}
use android_device_samsung_z.Audio.Playback.Settled.{IsSettled}
use android_device_samsung_z.Audio.Playback.Requests.{Requests, Request, Requests-IsSettled}
use android_device_samsung_z.Audio.Playback.Calls.{out_set_parameters-IsListed}
use android_device_samsung_z.Audio.Playback.Position.{
  out_get_presentation_position_lem, write_devices-written,
}
use android_device_samsung_z.Audio.Device.{
  AudioConfig, adev_open_output_stream, adev_close_output_stream, claim_output,
}
use android_device_samsung_z.Audio.Device.Streams.{adev_close_output_stream-Requests}
use android_device_samsung_z.Audio.Examples.{output, playing, idle, idle-IsRouted, layout, calling}
use android_device_samsung_z.Audio.Lookup.{get_pcm_device, get_usecase_from_id}
use android_device_samsung_z.Audio.Lookup.{get_usecase_from_type}

-- A PCM is ready where `pcm_is_ready` answers a value that is not 0.
abbrev answer : Call → Ret
answer (Call.pcm_is_ready pcm) = code 1
answer call = success

abbrev pub ready : Platform
ready = record aosp {
  reply = λ log call. answer call;
  channel_count = λ mask. 2;
  frame_size = λ format channels. 4;
}

-- The one output is in standby.
abbrev resting : AudioDevice
resting = record idle { outs = λ o. record output { standby = true } }

resting-IsSettled : IsSettled 0 resting
resting-IsSettled = record {
  routed = record {
    counted = idle-IsRouted.counted;
    shaped = idle-IsRouted.shaped;
    distinct = idle-IsRouted.distinct;
  };
  playing = λ e. absurd (cc e);
  idle = λ e. refl;
}

abbrev sound : List ℕ
sound = 1 ∷ 2 ∷ 3 ∷ 4 ∷ []

abbrev written : AudioDevice
written = (out_write ready layout 0 sound resting).1

-- A write and a standby.
abbrev requests : Requests ready layout 0 resting (out_standby 0 written)
requests =
    Requests.next (Requests.next Requests.here (Request.write resting sound))
      (Request.standby written)

requests_example : IsSettled 0 (out_standby 0 written)
requests_example = Requests-IsSettled ready layout requests resting-IsSettled

abbrev pub config : AudioConfig
config = record { sample_rate = 44100; channel_mask = 3; format = 1 }

abbrev opened : AudioDevice
opened =
    (adev_open_output_stream ready (some 1) 2 2 config (record idle { primary_output = none })).3

opened_success :
    (adev_open_output_stream ready (some 1) 2 2 config (record idle { primary_output = none })).0
    ≡ success
unfolding adev_open_output_stream claim_output get_pcm_device get_usecase_from_id
opened_success = refl

close_example :
    let r = adev_close_output_stream 1 (out_write ready layout 1 sound opened).1 in
    IsOff (r.outs 1).usecase r × ((r.outs 1).standby ≡ true)
close_example =
    adev_close_output_stream-Requests ready layout 1 2 2 config
      (record idle { primary_output = none })
      (record {
        counted = idle-IsRouted.counted;
        shaped = idle-IsRouted.shaped;
        distinct = idle-IsRouted.distinct;
      })
      opened_success (Requests.next Requests.here (Request.write opened sound))

ends_example : (select_devices ready layout select_depth playing 0).1.fault ≡ false
ends_example = select_devices-ends ready layout playing 0 0 refl (IsListening.deaf nothing)
  where
    nothing : get_usecase_from_type playing.usecase_list 3 ≡ none
    nothing = unfold get_usecase_from_type in refl

abbrev ringing : AudioDevice
ringing = record calling { usecase_list = []; snd_dev_ref_cnt = λ d. 0; outs = resting.outs }

ringing-IsSettled : IsSettled 0 ringing
ringing-IsSettled = record {
  routed = record {
    counted = idle-IsRouted.counted;
    shaped = idle-IsRouted.shaped;
    distinct = idle-IsRouted.distinct;
  };
  playing = λ e. absurd (cc e);
  idle = λ e. refl;
}

call_example_routing :
    let t = (out_set_parameters ready layout 0 (some 1) ringing).1 in
    ((out_set_parameters ready layout 0 (some 1) ringing).0 ≡ success)
    × (((true ≡ true) × IsListed t) ⊎ (true ≡ false) × IsRefused t)
call_example_routing =
    out_set_parameters-IsListed ready layout 0 1 ringing ringing-IsSettled refl refl refl refl refl

-- A device that is open.
abbrev speaker : PcmDevice
speaker = record { pcm_profile = 0; pcm = some 1; status = success }

abbrev sounding : AudioDevice
sounding = record playing {
  outs = λ o. record output { pcm_dev_list = speaker ∷ []; written = 600 };
}

position_example :
    ((out_get_presentation_position ready 0 sounding).0
      ≡ (if leb (256 * 2 % 2 ^ 32) (600 + 0) then success else failed enodata))
    × ((out_get_presentation_position ready 0 sounding).1
        ≡ (if leb (256 * 2 % 2 ^ 32) (600 + 0) then some (600 + 0 - 256 * 2 % 2 ^ 32) else none))
position_example =
    out_get_presentation_position_lem ready 0 1 speaker sounding refl refl refl (omega arith)

written_example :
    ((write_devices ready 0 sound sounding).1.outs 0).written
    ≡ (600 + 1 * (length sound / (2 * 2))) % 2 ^ 64
written_example = write_devices-written ready 0 sound sounding (omega arith) done
  where
    done : is_zero (write_devices ready 0 sound sounding).0 ≡ true
    done = unfold write_devices write_loop write_device device_write in refl
