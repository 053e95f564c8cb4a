-- ===== src/Audience/Examples.antt =====
-- The session of the voice processor at a wideband call on the earpiece.
use android_device_samsung_z.Common.{◌≡◌, false, [], ◌∷◌}
use android_device_samsung_z.Platform.{aosp}
use android_device_samsung_z.Audience.{es_start_voice_session}
use android_device_samsung_z.Audience.Session.{
  run_until_error, preset, extra_volume, equalizer, es_start_voice_session_lem,
}

es_start_voice_session_example :
    es_start_voice_session aosp [] 1 1 false
    ≡ run_until_error aosp (preset aosp 1 1 false ∷ extra_volume ∷ equalizer ∷ []) []
es_start_voice_session_example = es_start_voice_session_lem aosp 1 1 false []
