-- ===== src/Audio/Callbacks/Band.antt =====
-- The band of a call over a sequence of messages.
use android_device_samsung_z.Common.{ℕ, ◌≤◌, List, [], ◌∷◌, arith}
use android_device_samsung_z.Audio.State.{AudioDevice}
use android_device_samsung_z.Audio.Callbacks.{audio_set_wb_amr_callback}

-- The messages of a list, one after the other.
abbrev pub after_messages : AudioDevice → List ℕ → AudioDevice
after_messages s [] = s
after_messages s (wb_amr ∷ rest) = after_messages (audio_set_wb_amr_callback s wb_amr) rest

one_message :
    (s : AudioDevice) (wb_amr : ℕ)
    → s.wb_amr_type ≤ (audio_set_wb_amr_callback s wb_amr).wb_amr_type
unfolding audio_set_wb_amr_callback
one_message s wb_amr = ground arith

-- No sequence of messages to `audio_set_wb_amr_callback` lowers the state of wideband AMR: once a
-- call is wideband it stays so, the messages that carry 0 included.
pub audio_set_wb_amr_callback-le :
    (s : AudioDevice) (messages : List ℕ) → s.wb_amr_type ≤ (after_messages s messages).wb_amr_type
audio_set_wb_amr_callback-le s [] = omega arith
audio_set_wb_amr_callback-le s (wb_amr ∷ rest) = omega (
  arith,
  one_message s wb_amr,
  audio_set_wb_amr_callback-le (audio_set_wb_amr_callback s wb_amr) rest,
)
