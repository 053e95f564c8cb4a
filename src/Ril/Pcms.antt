-- ===== src/Ril/Pcms.antt =====
-- The setters of audio/ril_interface.c open and close no PCM.
use android_device_samsung_z.Common.{ℕ, refl, Bool, List, ◌∷◌, arith}
use android_device_samsung_z.Platform.{Platform, Call, SoundType, AudioPath, MuteCondition}
use android_device_samsung_z.Platform.Pcms.{SamePcms}
use android_device_samsung_z.Ril.{
  Ril, ril_connect_if_required, ril_request, ril_set_call_volume, ril_set_call_audio_path,
  ril_set_call_clock_stop, ril_set_mute, ril_set_two_mic_control, connect,
}

module _ (p : Platform) (r : Ril) (log : List Call) where
  connect-pcms : SamePcms log (ril_connect_if_required p r log).1
  unfolding ril_connect_if_required connect
  connect-pcms = record { same_given = λ q h. ground arith; same_closed = λ h. ground arith }

  ril_request-pcms :
      (call : Call)
      → ((l : List Call) → SamePcms l (call ∷ l))
      → SamePcms log (ril_request p r log call).1
  unfolding ril_request
  ril_request-pcms call plain =
      let made = plain (ril_connect_if_required p r log).1 in
      record {
        same_given = λ q h. ground (arith, connect-pcms.same_given q h, made.same_given q h);
        same_closed = λ h. ground (arith, connect-pcms.same_closed h, made.same_closed h);
      }

  pub ril_set_call_volume-pcms :
      (type : SoundType) (volume : ℕ) → SamePcms log (ril_set_call_volume p r log type volume).1
  unfolding ril_set_call_volume
  ril_set_call_volume-pcms type volume =
      ril_request-pcms _ (λ l. record { same_given = λ q h. refl; same_closed = λ h. refl })

  pub ril_set_call_audio_path-pcms :
      (path : AudioPath) → SamePcms log (ril_set_call_audio_path p r log path).1
  unfolding ril_set_call_audio_path
  ril_set_call_audio_path-pcms path =
      ril_request-pcms _ (λ l. record { same_given = λ q h. refl; same_closed = λ h. refl })

  pub ril_set_call_clock_stop-pcms : SamePcms log (ril_set_call_clock_stop p r log).1
  unfolding ril_set_call_clock_stop
  ril_set_call_clock_stop-pcms =
      ril_request-pcms _ (λ l. record { same_given = λ q h. refl; same_closed = λ h. refl })

  pub ril_set_mute-pcms :
      (condition : MuteCondition) → SamePcms log (ril_set_mute p r log condition).1
  unfolding ril_set_mute
  ril_set_mute-pcms condition =
      ril_request-pcms _ (λ l. record { same_given = λ q h. refl; same_closed = λ h. refl })

  pub ril_set_two_mic_control-pcms :
      (report : Bool) → SamePcms log (ril_set_two_mic_control p r log report).1
  unfolding ril_set_two_mic_control
  ril_set_two_mic_control-pcms report =
      ril_request-pcms _ (λ l. record { same_given = λ q h. refl; same_closed = λ h. refl })
