-- ===== src/Audio/Voice/Frame.antt =====
-- What a Bluetooth session leaves alone: `start_voice_session_bt_sco` and
-- `stop_voice_session_bt_sco` of audio/audio_hw.c.
use android_device_samsung_z.Common.{◌+◌, ◌≡◌, true, none, arith}
use android_device_samsung_z.Platform.{Platform}
use android_device_samsung_z.Audio.State.{AudioDevice}
use android_device_samsung_z.Audio.Profiles.{sound_playback_sco_device, sound_capture_sco_device}
use android_device_samsung_z.Audio.Voice.{
  open_pcm, stop_pcm, stop_voice_session_bt_sco, start_voice_session_bt_sco, open_sco, open_sco_rx,
  asked_ready, err_sco_tx, err_sco_rx,
}
use android_device_samsung_z.Audio.Voice.Sessions.{stop_pcm-log, asked_ready-log}

-- All but the SCO session and the log.
pub record SameButSco (s t : AudioDevice) : Type 0 where
  pub outs : t.outs ≡ s.outs
  pub ins : t.ins ≡ s.ins
  pub mode : t.mode ≡ s.mode
  pub in_call : t.in_call ≡ s.in_call
  pub voice_rx : t.pcm_voice_rx ≡ s.pcm_voice_rx
  pub voice_tx : t.pcm_voice_tx ≡ s.pcm_voice_tx
  pub primary : t.primary_output ≡ s.primary_output
  pub routes : (t.snd_dev_ref_cnt ≡ s.snd_dev_ref_cnt) × (t.usecase_list ≡ s.usecase_list)

pub stop_sco-SameButSco : (s : AudioDevice) → SameButSco s (stop_voice_session_bt_sco s)
unfolding stop_voice_session_bt_sco
stop_sco-SameButSco s = ground (
  arith,
  stop_pcm-log s.pcm_sco_rx s,
  stop_pcm-log s.pcm_sco_tx (record (stop_pcm s.pcm_sco_rx s) { pcm_sco_rx = none }),
)

module _ (p : Platform) where
  err_sco-SameButSco :
      (s : AudioDevice) → SameButSco s (err_sco_tx p s) × SameButSco s (err_sco_rx p s)
  unfolding err_sco_tx err_sco_rx
  err_sco-SameButSco s = ground arith

  open_sco_rx-SameButSco : (s : AudioDevice) → SameButSco s (open_sco_rx p s)
  unfolding open_sco_rx open_pcm
  open_sco_rx-SameButSco s =
      let (rx, t) = open_pcm p sound_playback_sco_device (p.pcm_out + p.pcm_monotonic) s in
      let t = record t { pcm_sco_rx = rx } in
      ground (arith, asked_ready-log p rx t, err_sco-SameButSco (asked_ready p rx t))

  open_sco-SameButSco : (s : AudioDevice) → SameButSco s (open_sco p s)
  unfolding open_sco open_pcm
  open_sco-SameButSco s =
      let (tx, t) = open_pcm p sound_capture_sco_device (p.pcm_in + p.pcm_monotonic) s in
      let t = record t { pcm_sco_tx = tx } in
      let asked = asked_ready p tx t in
      ground (arith, asked_ready-log p tx t, err_sco-SameButSco asked, open_sco_rx-SameButSco asked)

  pub start_sco-SameButSco : (s : AudioDevice) → SameButSco s (start_voice_session_bt_sco p s)
  unfolding start_voice_session_bt_sco
  start_sco-SameButSco s = ground (
    arith,
    stop_sco-SameButSco s,
    open_sco-SameButSco (record s { in_call_sco = true }),
    open_sco-SameButSco (record (stop_voice_session_bt_sco s) { in_call_sco = true }),
  )
