-- ===== src/Audio/Callbacks.antt =====
-- `audio_set_wb_amr_callback` of audio/audio_hw.c: what the RIL's message on the band of a call does.
pub mod Band
use android_device_samsung_z.Common.{ℕ, ◌&&◌, ◌==◌, not, if◌then◌else◌}
use android_device_samsung_z.Audio.State.{AudioDevice}

unfoldable pub audio_set_wb_amr_callback : AudioDevice → (wb_amr : ℕ) → AudioDevice
audio_set_wb_amr_callback s wb_amr =
    if not (wb_amr == 0) && (not s.audience_enabled && not s.forced_voice_config)
    then if not (wb_amr == 0) && s.wb_amr_type == 0
      then record s { wb_amr_type = 1 }
      else if wb_amr == 0 && not (s.wb_amr_type == 0)
      then record s { wb_amr_type = 0 }
      else s
    else s
