-- ===== src/Audio/Device/Modes.antt =====
-- The mode of the audio HAL and its calls: `adev_set_mode` of audio/audio_hw.c.
use android_device_samsung_z.Common.{
  ◌≡◌, refl, sym, ap, ◌∙◌, ◌⊎◌, inl, inr, Bool-cases, true, false, Option-cases, none, ◌&&◌,
  if◌then◌else◌, if_of, arith, eq_of_==,
}
use android_device_samsung_z.Platform.{Platform, Ret, success}
use android_device_samsung_z.Ril.{ril_set_call_clock_stop}
use android_device_samsung_z.Audio.State.{
  Mode, mode_normal, mode_in_call, mode_in_communication, mode_other, UsecaseType,
  usecase_voice_call, AudioDevice, is_in_call, is_normal,
}
use android_device_samsung_z.Audio.Lookup.{get_usecase_from_id}
use android_device_samsung_z.Audio.Route.{disable_snd_device}
use android_device_samsung_z.Audio.Route.Count.{disable-Routes}
use android_device_samsung_z.Audio.Route.Invariant.{IsRouted}
use android_device_samsung_z.Audio.Route.Members.{SameRoutes, SameRoutes-IsRouted, found_of_type}
use android_device_samsung_z.Audio.Select.{with_log}
use android_device_samsung_z.Audio.Voice.{
  stop_pcm, stop_voice_session_bt_sco, close_voice, end_voice_usecase, stop_voice_call,
}
use android_device_samsung_z.Audio.Voice.Calls.{IsListed, SameRoutes-IsListed}
use android_device_samsung_z.Audio.Voice.Ends.{
  IsEnded, IsClosed, stop_voice_call-IsEnded, stop_voice_call-IsClosed,
}
use android_device_samsung_z.Audio.Voice.Frame.{stop_sco-SameButSco}
use android_device_samsung_z.Audio.Voice.Sessions.{stop_pcm-log}
use android_device_samsung_z.Audio.Device.{same_mode, register_callbacks, adev_set_mode}

same_mode-eq : (m n : Mode) → same_mode m n ≡ true → m ≡ n
same_mode-eq mode_normal mode_normal h = refl
same_mode-eq mode_in_call mode_in_call h = refl
same_mode-eq mode_in_communication mode_in_communication h = refl
same_mode-eq (mode_other m) (mode_other n) h = ap mode_other (eq_of_== m n h)
same_mode-eq _ _ h = cc

-- The end of a call does not touch the mode.
end_voice_usecase-mode : (s : AudioDevice) → (end_voice_usecase s).1.mode ≡ s.mode
unfolding end_voice_usecase
end_voice_usecase-mode s =
    elim (Option-cases (get_usecase_from_id s.usecase_list usecase_voice_call)) [
      | inl absent ↦ rw (absent, end_voice_usecase) refl
      | inr (u, f) ↦
          let off = (disable_snd_device s u.mixer_list u.out_snd_device).1 in
          rw (f, end_voice_usecase)
            (ground (
              arith,
              disable-Routes off u.mixer_list u.in_snd_device,
              disable-Routes s u.mixer_list u.out_snd_device,
            ))
    ]

module _ (p : Platform) where
  close_voice-mode : (s : AudioDevice) → (close_voice p s).mode ≡ s.mode
  unfolding close_voice
  close_voice-mode s =
      let s1 = if s.in_call_sco then stop_voice_session_bt_sco s else s in
      let s2 = record (stop_pcm s1.pcm_voice_rx s1) { pcm_voice_rx = none } in
      ground (
        arith,
        stop_sco-SameButSco s,
        stop_pcm-log s1.pcm_voice_rx s1,
        stop_pcm-log s2.pcm_voice_tx s2,
      )

  stop_voice_call-mode : (s : AudioDevice) → (stop_voice_call p s).1.mode ≡ s.mode
  unfolding stop_voice_call
  stop_voice_call-mode s = end_voice_usecase-mode (close_voice p s) ∙ close_voice-mode s

  register_callbacks-SameRoutes :
      (s : AudioDevice)
      → let t = register_callbacks p s in
        SameRoutes s t × (t.in_call ≡ s.in_call) × (t.mode ≡ s.mode)
  unfolding register_callbacks
  register_callbacks-SameRoutes s = ground arith

  -- What holds of a device whose call, if one runs, is in the list.
  pub record IsTracked (s : AudioDevice) : Type 0 where
    pub routed : IsRouted s
    pub calls : s.in_call ≡ true → IsListed s

  abbrev moved_to : Mode → AudioDevice → AudioDevice
  moved_to mode s =
      let called = if is_in_call mode then register_callbacks p s else s in
      if same_mode s.mode mode then s else record called { mode = mode }

  moved_to-facts :
      (mode : Mode) (s : AudioDevice)
      → let t = moved_to mode s in SameRoutes s t × (t.in_call ≡ s.in_call) × (t.mode ≡ mode)
  moved_to-facts mode s =
      let called = if is_in_call mode then register_callbacks p s else s in
      let same : SameRoutes s called × (called.in_call ≡ s.in_call) =
        if_of (λ t. SameRoutes s t × (t.in_call ≡ s.in_call)) (is_in_call mode)
          (register_callbacks p s) s
          (λ e. let (routes, call, old) = register_callbacks-SameRoutes s in (routes, call))
          (λ e. ((refl, refl), refl)) in
      if_of (λ (t : AudioDevice). SameRoutes s t × (t.in_call ≡ s.in_call) × (t.mode ≡ mode))
        (same_mode s.mode mode) _ _ (λ e. ((refl, refl), refl, same_mode-eq s.mode mode e))
        (λ e. (same.0, same.1, refl))

  SameRoutes-IsTracked :
      (s t : AudioDevice) → SameRoutes s t → t.in_call ≡ s.in_call → IsTracked s → IsTracked t
  SameRoutes-IsTracked s t e call h = record {
    routed = SameRoutes-IsRouted s t e h.routed;
    calls = λ on. SameRoutes-IsListed s t e (h.calls (sym call ∙ on));
  }

  -- The mode is set; in the mode NORMAL the call is over.
  pub record IsMoved (mode : Mode) (s : AudioDevice) (rc : Ret) (t : AudioDevice) : Type 0 where
    pub succeeds : rc ≡ success
    pub moved : t.mode ≡ mode
    pub tracked : IsTracked t
    pub call : (t.in_call ≡ s.in_call) ⊎ (is_normal mode ≡ true) × IsEnded t × IsClosed t
    pub over : (is_normal mode ≡ false) ⊎ (t.in_call ≡ false)

  -- Where the counts are the uses, and the voice usecase is in the list if a call runs:
  -- `adev_set_mode` answers 0, sets the mode and keeps both. In the mode NORMAL no call runs after
  -- it. Either the call is as it was, or the mode is NORMAL, the call is ended, its usecase has
  -- left the list and its PCMs and the SCO session are closed.
  pub adev_set_mode-IsMoved :
      (mode : Mode) (s : AudioDevice)
      → IsTracked s
      → IsMoved mode s (adev_set_mode p mode s).0 (adev_set_mode p mode s).1
  unfolding adev_set_mode
  adev_set_mode-IsMoved mode s h =
      let t = moved_to mode s in
      let (same, call, mode_t) = moved_to-facts mode s in
      let tracked = SameRoutes-IsTracked s t same call h in
      let stopped = with_log t (ril_set_call_clock_stop p t.ril t.log) in
      if_of {A = Ret × AudioDevice} (λ r. IsMoved mode s r.0 r.1) (is_normal t.mode && t.in_call) _
        _
        (λ e.
          let (normal, on) : (is_normal t.mode ≡ true) × (t.in_call ≡ true) = ground (arith, e) in
          let listed = SameRoutes-IsListed t stopped (refl, refl) (tracked.calls on) in
          let (u, f) =
            found_of_type stopped.usecase_list usecase_voice_call UsecaseType.voice_call
              listed.listed in
          let ended = (stop_voice_call-IsEnded p stopped u listed.routed f).1 in
          record {
            succeeds = refl;
            moved = stop_voice_call-mode stopped ∙ mode_t;
            tracked = record {
              routed = ended.routed;
              calls = λ again. absurd (cc (sym ended.no_call ∙ again));
            };
            call =
                inr (ap is_normal (sym mode_t) ∙ normal, ended, stop_voice_call-IsClosed p stopped);
            over = inr ended.no_call;
          })
        (λ e. record {
          succeeds = refl;
          moved = mode_t;
          tracked = tracked;
          call = inl call;
          over = elim (Bool-cases t.in_call) [
            | inl on ↦ inl (ap is_normal (sym mode_t) ∙ ground (arith, e, on))
            | inr off ↦ inr off
          ];
        })
