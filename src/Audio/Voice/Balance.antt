-- ===== src/Audio/Voice/Balance.antt =====
-- The PCM handles of a voice call from its start to its end: `start_voice_call` and
-- `stop_voice_call` of audio/audio_hw.c.
use android_device_samsung_z.Common.{
  ℕ, ◌≡◌, refl, inl, inr, Option, none, some, is_some, Option-cases, [], ◌∷◌, ◌++◌, ◌||◌, not, has,
  if_of, if◌then◌else◌, arith,
}
use android_device_samsung_z.Platform.{Platform, Ret, usecase_memory}
use android_device_samsung_z.Ril.Pcms.{ril_set_call_clock_stop-pcms}
use android_device_samsung_z.Audience.{es_start_voice_session, es_stop_voice_session}
use android_device_samsung_z.Audio.State.{usecase_voice_call, AudioDevice, Layout}
use android_device_samsung_z.Audio.Lookup.{get_mixer_for_card, get_usecase_from_id}
use android_device_samsung_z.Audio.Profiles.{
  sound_card, sound_playback_voice_device, sound_capture_voice_device,
}
use android_device_samsung_z.Audio.Route.{disable_snd_device}
use android_device_samsung_z.Audio.Select.{select_depth, primary_devices}
use android_device_samsung_z.Audio.Select.Streams.{
  SameStreams, disable_snd_device-SameStreams, select_devices-SameStreams,
}
use android_device_samsung_z.Audio.Voice.{
  close_pcm, stop_voice_session_bt_sco, start_voice_session_bt_sco, open_pcm, not_ready,
  asked_ready, voice_exit, start_voice_pcms, open_voice_rx, open_voice, new_voice_usecase,
  enter_call, start_call_on, start_allocated_call, start_voice_call, end_voice_usecase, close_voice,
  stop_voice_call,
}
use android_device_samsung_z.Audio.Voice.Frame.{start_sco-SameButSco}
use android_device_samsung_z.Audio.Voice.Handles.{
  IsBalanced, IsBalanced-trans, balanced, stop_sco_facts,
}
use android_device_samsung_z.Audio.Voice.Sco.{start_voice_session_bt_sco-IsScoAnswered}

SameStreams-IsBalanced : (p : Platform) (s t : AudioDevice) → SameStreams s t → IsBalanced p s t
SameStreams-IsBalanced p s t e = record {
  balance = λ h. ground (arith, e.pcms.same_given p h, e.pcms.same_closed h, e.same_control);
}

-- The session is stopped where it runs.
sco_ended-IsBalanced :
    (p : Platform) (s : AudioDevice)
    → IsBalanced p s (if s.in_call_sco then stop_voice_session_bt_sco s else s)
sco_ended-IsBalanced p s =
    if_of (IsBalanced p s) s.in_call_sco _ _ (λ e. (stop_sco_facts p s).0) (λ e. balanced p s)

end_voice_usecase-IsBalanced :
    (p : Platform) (s : AudioDevice) → IsBalanced p s (end_voice_usecase s).1
unfolding end_voice_usecase
end_voice_usecase-IsBalanced p s =
    elim (Option-cases (get_usecase_from_id s.usecase_list usecase_voice_call)) [
      | inl absent ↦ rw (absent, end_voice_usecase) (balanced p s)
      | inr (u, f) ↦
          let off = (disable_snd_device s u.mixer_list u.out_snd_device).1 in
          let muted = (disable_snd_device off u.mixer_list u.in_snd_device).1 in
          let first =
            SameStreams-IsBalanced p s off
              (disable_snd_device-SameStreams s u.mixer_list u.out_snd_device) in
          let second =
            SameStreams-IsBalanced p off muted
              (disable_snd_device-SameStreams off u.mixer_list u.in_snd_device) in
          rw (f, end_voice_usecase)
            (record { balance = (IsBalanced-trans p s off muted first second).balance })
    ]

module _ (p : Platform) where
  close_voice-IsBalanced : (s : AudioDevice) → IsBalanced p s (close_voice p s)
  unfolding close_voice es_stop_voice_session
  close_voice-IsBalanced s =
      let s1 = if s.in_call_sco then stop_voice_session_bt_sco s else s in
      IsBalanced-trans p s s1 (close_voice p s) (sco_ended-IsBalanced p s)
        (record { balance = λ h. ground arith })

  pub stop_voice_call-IsBalanced : (s : AudioDevice) → IsBalanced p s (stop_voice_call p s).1
  unfolding stop_voice_call
  stop_voice_call-IsBalanced s =
      IsBalanced-trans p s (close_voice p s) _ (close_voice-IsBalanced s)
        (end_voice_usecase-IsBalanced p (close_voice p s))

  voice_exit-IsBalanced : (s : AudioDevice) → IsBalanced p s (voice_exit p s)
  unfolding voice_exit
  voice_exit-IsBalanced s =
      let s1 = record (close_pcm s.pcm_voice_rx s) { pcm_voice_rx = none } in
      let s2 = record (close_pcm s1.pcm_voice_tx s1) { pcm_voice_tx = none } in
      let s3 = if s2.in_call_sco then stop_voice_session_bt_sco s2 else s2 in
      let k = ril_set_call_clock_stop-pcms p s3.ril s3.log in
      IsBalanced-trans p s s2 _ (record { balance = λ h. ground arith })
        (IsBalanced-trans p s2 s3 _ (sco_ended-IsBalanced p s2)
          (record { balance = λ h. ground (arith, k.same_given p h, k.same_closed h) }))

  start_voice_pcms-IsBalanced : (s : AudioDevice) → IsBalanced p s (start_voice_pcms p s)
  unfolding start_voice_pcms es_start_voice_session
  start_voice_pcms-IsBalanced s = record { balance = λ h. ground arith }

  open_voice_rx-IsBalanced :
      (s : AudioDevice) → s.pcm_voice_rx ≡ none → IsBalanced p s (open_voice_rx p s).1
  unfolding open_voice_rx open_pcm asked_ready
  open_voice_rx-IsBalanced s no_rx =
      let (rx, t) = open_pcm p sound_playback_voice_device p.pcm_out s in
      let t = record t { pcm_voice_rx = rx } in
      let asked = asked_ready p rx t in
      let opened : IsBalanced p s asked = record { balance = λ h. ground (arith, no_rx) } in
      if_of {A = Ret × AudioDevice} (λ r. IsBalanced p s r.1) (not_ready p rx t) _ _
        (λ e. IsBalanced-trans p s asked _ opened (voice_exit-IsBalanced asked))
        (λ e. IsBalanced-trans p s asked _ opened (start_voice_pcms-IsBalanced asked))

  open_voice-IsBalanced :
      (s : AudioDevice)
      → s.pcm_voice_rx ≡ none
      → s.pcm_voice_tx ≡ none
      → IsBalanced p s (open_voice p s).1
  unfolding open_voice open_pcm asked_ready
  open_voice-IsBalanced s no_rx no_tx =
      let (tx, t) = open_pcm p sound_capture_voice_device p.pcm_in s in
      let t = record t { pcm_voice_tx = tx } in
      let asked = asked_ready p tx t in
      let opened : IsBalanced p s asked = record { balance = λ h. ground (arith, no_tx) } in
      let still : asked.pcm_voice_rx ≡ none = ground (arith, no_rx) in
      if_of {A = Ret × AudioDevice} (λ r. IsBalanced p s r.1) (not_ready p tx t) _ _
        (λ e. IsBalanced-trans p s asked _ opened (voice_exit-IsBalanced asked))
        (λ e. IsBalanced-trans p s asked _ opened (open_voice_rx-IsBalanced asked still))

module _ (p : Platform) (lay : Layout) where
  start_call_on-IsBalanced :
      (primary : ℕ) (s : AudioDevice) → IsBalanced p s (start_call_on p lay primary s).1
  unfolding start_call_on
  start_call_on-IsBalanced primary s =
      let s' = record s {
        fault = s.fault || not (is_some (get_mixer_for_card s.mixer_list sound_card));
      } in
      let listed = record s' {
        usecase_list = s'.usecase_list ++ new_voice_usecase p s' primary ∷ [];
      } in
      let t = enter_call p lay s' primary in
      let selected =
        SameStreams-IsBalanced p listed _
          (select_devices-SameStreams p lay select_depth listed usecase_voice_call) in
      let entered : IsBalanced p s t = record { balance = selected.balance } in
      let sco =
        if has (primary_devices t) p.out_all_sco then start_voice_session_bt_sco p t else t in
      let same = start_sco-SameButSco p t in
      let joined : IsBalanced p t sco =
        if_of (IsBalanced p t) (has (primary_devices t) p.out_all_sco) _ _
          (λ e. (start_voice_session_bt_sco-IsScoAnswered p t).0) (λ e. balanced p t) in
      if_of {A = Ret × AudioDevice} (λ r. IsBalanced p s r.1)
        (is_some t.pcm_voice_rx || is_some t.pcm_voice_tx) _ _ (λ e. entered)
        (λ shut.
          let no_rx : sco.pcm_voice_rx ≡ none = ground (arith, shut, same) in
          let no_tx : sco.pcm_voice_tx ≡ none = ground (arith, shut, same) in
          IsBalanced-trans p s t _ entered
            (IsBalanced-trans p t sco _ joined (open_voice-IsBalanced p sco no_rx no_tx)))

  start_allocated_call-IsBalanced :
      (primary : Option ℕ) (s : AudioDevice)
      → IsBalanced p s (start_allocated_call p lay primary s).1
  unfolding start_allocated_call
  start_allocated_call-IsBalanced none s = record { balance = λ h. refl }
  start_allocated_call-IsBalanced (some primary) s = start_call_on-IsBalanced primary s

  pub start_voice_call-IsBalanced : (s : AudioDevice) → IsBalanced p s (start_voice_call p lay s).1
  unfolding start_voice_call
  start_voice_call-IsBalanced s =
      if_of {A = Ret × AudioDevice} (λ r. IsBalanced p s r.1) (p.allocates s.log usecase_memory) _ _
        (λ given. start_allocated_call-IsBalanced s.primary_output s)
        (λ missing. voice_exit-IsBalanced p s)
