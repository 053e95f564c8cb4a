-- ===== src/Audio/Voice/Sessions.antt =====
-- Which PCMs are open around a voice call: `start_voice_session_bt_sco`, `stop_voice_call` and
-- the labels of `start_voice_call`.
use android_device_samsung_z.Common.{
  inl, inr, ◌∙◌, ◌⊎◌, ◌+◌, ◌≡◌, refl, true, false, Option, none, some, if_of, arith, ℕ,
}
use android_device_samsung_z.Platform.{Platform, Ret, success}
use android_device_samsung_z.Audio.State.{AudioDevice}
use android_device_samsung_z.Audio.Select.{with_log}
use android_device_samsung_z.Ril.{ril_set_call_clock_stop}
use android_device_samsung_z.Audio.Profiles.{
  sound_playback_sco_device, sound_capture_sco_device, sound_playback_voice_device,
  sound_capture_voice_device,
}
use android_device_samsung_z.Audio.Route.Members.{SameRoutes}
use android_device_samsung_z.Audio.Voice.{
  close_pcm, open_pcm, stop_pcm, stop_voice_session_bt_sco, start_voice_session_bt_sco, open_sco,
  open_sco_rx, open_voice, open_voice_rx, start_voice_pcms, not_ready, asked_ready, err_sco_tx,
  err_sco_rx, voice_exit,
}

-- Outside a SCO call both SCO PCMs are closed.
pub record IsScoClosed (s : AudioDevice) : Type 0 where
  pub rx_closed : s.in_call_sco ≡ false → s.pcm_sco_rx ≡ none
  pub tx_closed : s.in_call_sco ≡ false → s.pcm_sco_tx ≡ none

-- No call runs, and none of its PCMs is open.
pub record IsCallOver (s : AudioDevice) : Type 0 where
  pub no_call : s.in_call ≡ false
  pub no_sco : s.in_call_sco ≡ false
  pub no_voice_rx : s.pcm_voice_rx ≡ none
  pub no_voice_tx : s.pcm_voice_tx ≡ none

-- The routes stay; the call stays as it is, or is over.
pub record Opens (s t : AudioDevice) : Type 0 where
  pub counts : t.snd_dev_ref_cnt ≡ s.snd_dev_ref_cnt
  pub usecases : t.usecase_list ≡ s.usecase_list
  pub running : (t.in_call ≡ s.in_call) ⊎ IsCallOver t

-- The routes and the call stay.
record Settled (s t : AudioDevice) : Type 0 where
  pub counts : t.snd_dev_ref_cnt ≡ s.snd_dev_ref_cnt
  pub usecases : t.usecase_list ≡ s.usecase_list
  pub same_call : t.in_call ≡ s.in_call

Settled-Opens : (s t r : AudioDevice) → Settled s t → Opens t r → Opens s r
Settled-Opens s t r e o = record {
  counts = o.counts ∙ e.counts;
  usecases = o.usecases ∙ e.usecases;
  running = elim o.running [ inl same ↦ inl (same ∙ e.same_call) | inr over ↦ inr over ];
}

-- `t` is `s` but for the log.
abbrev pub SameButLog : AudioDevice → AudioDevice → Type 0
SameButLog s t = t ≡ record s { log = t.log }

pub stop_pcm-log : (pcm : Option ℕ) (s : AudioDevice) → SameButLog s (stop_pcm pcm s)
stop_pcm-log none s = refl
stop_pcm-log (some h) s = refl

pub stop_sco-IsScoClosed :
    (s : AudioDevice)
    → let t = stop_voice_session_bt_sco s in
      (t.in_call_sco ≡ false)
      × (t.pcm_voice_rx ≡ s.pcm_voice_rx)
      × (t.pcm_voice_tx ≡ s.pcm_voice_tx)
      × IsScoClosed t
      × SameRoutes s t
unfolding stop_voice_session_bt_sco
stop_sco-IsScoClosed s = ground (
  arith,
  stop_pcm-log s.pcm_sco_rx s,
  stop_pcm-log s.pcm_sco_tx (record (stop_pcm s.pcm_sco_rx s) { pcm_sco_rx = none }),
)

module _ (p : Platform) where
  pub asked_ready-log : (pcm : Option ℕ) (s : AudioDevice) → SameButLog s (asked_ready p pcm s)
  unfolding asked_ready
  asked_ready-log none s = refl
  asked_ready-log (some h) s = refl

  err_sco_tx-SameRoutes : (s : AudioDevice) → SameRoutes s (err_sco_tx p s)
  unfolding err_sco_tx
  err_sco_tx-SameRoutes s = ground arith

  err_sco-IsScoClosed :
      (s : AudioDevice) → IsScoClosed (err_sco_rx p s) × SameRoutes s (err_sco_rx p s)
  unfolding err_sco_rx
  err_sco-IsScoClosed s = ground arith

  open_sco_rx-SameRoutes : (s : AudioDevice) → SameRoutes s (open_sco_rx p s)
  unfolding open_sco_rx open_pcm
  open_sco_rx-SameRoutes s =
      let (rx, t) = open_pcm p sound_playback_sco_device (p.pcm_out + p.pcm_monotonic) s in
      let t = record t { pcm_sco_rx = rx } in
      ground (arith, asked_ready-log rx t, err_sco-IsScoClosed (asked_ready p rx t))

  open_sco-SameRoutes : (s : AudioDevice) → SameRoutes s (open_sco p s)
  unfolding open_sco open_pcm
  open_sco-SameRoutes s =
      let (tx, t) = open_pcm p sound_capture_sco_device (p.pcm_in + p.pcm_monotonic) s in
      let t = record t { pcm_sco_tx = tx } in
      let asked = asked_ready p tx t in
      ground
        (arith, asked_ready-log tx t, err_sco_tx-SameRoutes asked, open_sco_rx-SameRoutes asked)

  pub start_sco-SameRoutes : (s : AudioDevice) → SameRoutes s (start_voice_session_bt_sco p s)
  unfolding start_voice_session_bt_sco
  start_sco-SameRoutes s = ground (
    arith,
    stop_sco-IsScoClosed s,
    open_sco-SameRoutes (record s { in_call_sco = true }),
    open_sco-SameRoutes (record (stop_voice_session_bt_sco s) { in_call_sco = true }),
  )

  clock_stop-log :
      (s : AudioDevice) → SameButLog s (with_log s (ril_set_call_clock_stop p s.ril s.log))
  clock_stop-log s = refl

  pub voice_exit-IsCallOver :
      (s : AudioDevice) → IsCallOver (voice_exit p s) × SameRoutes s (voice_exit p s)
  unfolding voice_exit
  voice_exit-IsCallOver s =
      let s1 = record (close_pcm s.pcm_voice_rx s) { pcm_voice_rx = none } in
      let s2 = record (close_pcm s.pcm_voice_tx s1) { pcm_voice_tx = none } in
      ground (arith, stop_sco-IsScoClosed s2)

  exit_Opens : (s : AudioDevice) → Opens s (voice_exit p s)
  exit_Opens s =
      let over = voice_exit-IsCallOver s in
      record { counts = over.1.0; usecases = over.1.1; running = inr over.0 }

  start_voice_pcms-Opens : (s : AudioDevice) → Opens s (start_voice_pcms p s)
  unfolding start_voice_pcms
  start_voice_pcms-Opens s = ground arith

  open_voice_rx-Opens : (s : AudioDevice) → Opens s (open_voice_rx p s).1
  unfolding open_voice_rx open_pcm
  open_voice_rx-Opens s =
      let (rx, t) = open_pcm p sound_playback_voice_device p.pcm_out s in
      let t = record t { pcm_voice_rx = rx } in
      let asked = asked_ready p rx t in
      let same = asked_ready-log rx t in
      let settled : Settled s asked = ground (arith, same) in
      if_of {A = Ret × AudioDevice} (λ r. Opens s r.1) (not_ready p rx t) _ _
        (λ e. Settled-Opens s asked _ settled (exit_Opens asked))
        (λ e. Settled-Opens s asked _ settled (start_voice_pcms-Opens asked))

  -- The PCMs of the call are opened, or it is over.
  pub open_voice-Opens : (s : AudioDevice) → Opens s (open_voice p s).1
  unfolding open_voice open_pcm
  open_voice-Opens s =
      let (tx, t) = open_pcm p sound_capture_voice_device p.pcm_in s in
      let t = record t { pcm_voice_tx = tx } in
      let asked = asked_ready p tx t in
      let same = asked_ready-log tx t in
      let settled : Settled s asked = ground (arith, same) in
      if_of {A = Ret × AudioDevice} (λ r. Opens s r.1) (not_ready p tx t) _ _
        (λ e. Settled-Opens s asked _ settled (exit_Opens asked))
        (λ e. Settled-Opens s asked _ settled (open_voice_rx-Opens asked))

  pub open_voice-success : (s : AudioDevice) → (open_voice p s).0 ≡ success
  unfolding open_voice open_voice_rx open_pcm
  open_voice-success s = ground arith
