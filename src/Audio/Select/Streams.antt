-- ===== src/Audio/Select/Streams.antt =====
-- The streams and the PCM profiles along `select_devices`.
use android_device_samsung_z.Common.{
  List, Bool, Option, ℕ, zero, suc, ◌≡◌, refl, ◌∙◌, Option-cases, ◌==◌, ◌&&◌, ◌||◌, has, inl, inr,
  if_of, if◌then◌else◌, arith,
}
use android_device_samsung_z.Platform.{Platform, Call, Ret, rx_unmute, tx_unmute}
use android_device_samsung_z.Platform.Pcms.{SamePcms, SamePcms-trans, same_pcms}
use android_device_samsung_z.Ril.{ril_set_two_mic_control, ril_set_call_audio_path, ril_set_mute}
use android_device_samsung_z.Ril.Pcms.{
  ril_set_two_mic_control-pcms, ril_set_call_audio_path-pcms, ril_set_call_volume-pcms,
  ril_set_mute-pcms,
}
use android_device_samsung_z.Audio.Route.Pcms.{
  enable_snd_device-pcms, disable_snd_device-pcms, check_and_route-pcms,
}
use android_device_samsung_z.Audio.SndDevice.{SndDevice, snd_device_none}
use android_device_samsung_z.Audio.State.{
  is_in_call, UsecaseType, Mode, pcm_playback, pcm_capture, AudioUsecase, AudioDevice, Layout,
  view_in, view_out_devices,
}
use android_device_samsung_z.Audio.Lookup.{get_usecase_from_id}
use android_device_samsung_z.Audio.Route.{disable_snd_device, check_and_route_usecases}
use android_device_samsung_z.Audio.Route.Count.{Routes, enable-Routes, disable-Routes}
use android_device_samsung_z.Audio.Route.Reroute.{check_and_route-Routes}
use android_device_samsung_z.Audio.Select.{
  with_log, primary_devices, sound_type_of, call_audio_path, set_voice_volume, do_routing_for_call,
  unmute, call_devices, is_voice_call, disable_old, enable_new, switch_devices, finish_selection,
  set_usecase_devices, follow_up, select_by_type, select_devices,
}

-- The fields that a selection of devices leaves alone.
abbrev pub control :
    AudioDevice
    → Mode
      × Bool
      × Bool
      × Bool
      × Option ℕ
      × Option ℕ
      × Option ℕ
      × Option ℕ
      × List ℕ
      × Option ℕ
      × Option ℕ
control s = (
  s.mode, s.in_call, s.in_call_sco, s.in_comm_sco, s.active_input, s.primary_output, s.pcm_voice_rx,
  s.pcm_voice_tx, s.mixer_list, s.pcm_sco_rx, s.pcm_sco_tx,
)

-- The streams of `t` are those of `s`, and so are the profiles; no PCM is opened or closed between.
pub record SameStreams (s t : AudioDevice) : Type 0 where
  pub outs : t.outs ≡ s.outs
  pub ins : t.ins ≡ s.ins
  pub profiles : t.pcm_devices ≡ s.pcm_devices
  pub same_control : control t ≡ control s
  pub pcms : SamePcms s.log t.log

pub same_streams : (s : AudioDevice) → SameStreams s s
same_streams s = record {
  outs = refl;
  ins = refl;
  profiles = refl;
  same_control = refl;
  pcms = same_pcms s.log;
}

pub SameStreams-trans : (s t r : AudioDevice) → SameStreams s t → SameStreams t r → SameStreams s r
SameStreams-trans s t r f g = record {
  outs = g.outs ∙ f.outs;
  ins = g.ins ∙ f.ins;
  profiles = g.profiles ∙ f.profiles;
  same_control = g.same_control ∙ f.same_control;
  pcms = SamePcms-trans s.log t.log r.log f.pcms g.pcms;
}

Routes-SameStreams : (s t : AudioDevice) → Routes s t → SamePcms s.log t.log → SameStreams s t
Routes-SameStreams s t e k = record {
  outs = ground (arith, e);
  ins = ground (arith, e);
  profiles = ground (arith, e);
  same_control = ground (arith, e);
  pcms = k;
}

pub disable_snd_device-SameStreams :
    (s : AudioDevice) (ms : List ℕ) (d : SndDevice) → SameStreams s (disable_snd_device s ms d).1
disable_snd_device-SameStreams s ms d =
    Routes-SameStreams s _ (disable-Routes s ms d) (disable_snd_device-pcms s ms d)

disable_old-SameStreams :
    (s : AudioDevice) (u : AudioUsecase) (d : SndDevice) → SameStreams s (disable_old s u d)
unfolding disable_old
disable_old-SameStreams s u d =
    if_of (SameStreams s) (d == snd_device_none) _ _ (λ e. same_streams s)
      (λ e. disable_snd_device-SameStreams s u.mixer_list d)

enable_new-SameStreams :
    (s : AudioDevice) (u : AudioUsecase) (type : UsecaseType) (d : SndDevice)
    → SameStreams s (enable_new s u type d)
unfolding enable_new
enable_new-SameStreams s u type d =
    let moved = check_and_route_usecases s u.id type d in
    if_of (SameStreams s) (d == snd_device_none) _ _ (λ e. same_streams s)
      (λ e.
        SameStreams-trans s moved _
          (Routes-SameStreams s moved (check_and_route-Routes s u.id type d)
            (check_and_route-pcms s u.id type d))
          (Routes-SameStreams moved _ (enable-Routes moved u.mixer_list d)
            (enable_snd_device-pcms moved u.mixer_list d)))

module _ (p : Platform) where
  -- A call of the RIL client keeps the streams.
  log-SameStreams :
      (s : AudioDevice) (log : List Call)
      → SamePcms s.log log
      → SameStreams s (record s { log = log })
  log-SameStreams s log k = record {
    outs = refl;
    ins = refl;
    profiles = refl;
    same_control = refl;
    pcms = k;
  }

  set_voice_volume-SameStreams :
      (s : AudioDevice) (volume : ℕ) → SameStreams s (set_voice_volume p s volume).1
  unfolding set_voice_volume
  set_voice_volume-SameStreams s volume =
      let sound_type = sound_type_of p (primary_devices s) in
      let k = ril_set_call_volume-pcms p s.ril s.log sound_type volume in
      if_of {A = Ret × AudioDevice} (λ r. SameStreams s r.1) (is_in_call s.mode) _ _
        (λ e. record { outs = refl; ins = refl; profiles = refl; same_control = refl; pcms = k })
        (λ e. same_streams s)

  do_routing-SameStreams :
      (s : AudioDevice) (out_device : ℕ) → SameStreams s (do_routing_for_call p s out_device)
  unfolding do_routing_for_call
  do_routing-SameStreams s out_device =
      let two_mic = has out_device p.out_earpiece || has out_device p.out_speaker in
      let a = with_log s (ril_set_two_mic_control p s.ril s.log two_mic) in
      let path = call_audio_path p a out_device in
      let b = with_log a (ril_set_call_audio_path p a.ril a.log path) in
      SameStreams-trans s a _
        (log-SameStreams s a.log (ril_set_two_mic_control-pcms p s.ril s.log two_mic))
        (SameStreams-trans a b _
          (log-SameStreams a b.log (ril_set_call_audio_path-pcms p a.ril a.log path))
          (set_voice_volume-SameStreams b b.volume))

  unmute-SameStreams : (s : AudioDevice) → SameStreams s (unmute p s)
  unfolding unmute
  unmute-SameStreams s =
      let a = with_log s (ril_set_mute p s.ril s.log rx_unmute) in
      let first = log-SameStreams s a.log (ril_set_mute-pcms p s.ril s.log rx_unmute) in
      if_of {A = AudioDevice} (SameStreams s) a.mic_mute _ _ (λ e. first)
        (λ e.
          SameStreams-trans s a _ first
            (log-SameStreams a _ (ril_set_mute-pcms p a.ril a.log tx_unmute)))

module _ (p : Platform) (lay : Layout) where
  switch_devices-SameStreams :
      (s : AudioDevice) (u : AudioUsecase) (out inp : SndDevice)
      → SameStreams s (switch_devices p lay s u out inp).1
  unfolding switch_devices
  switch_devices-SameStreams s u out inp =
      let routed =
        if is_voice_call s u
        then do_routing_for_call p s (view_out_devices lay s u.stream)
        else s in
      let off1 = disable_old routed u u.out_snd_device in
      let off = disable_old off1 u u.in_snd_device in
      let on1 = enable_new off u pcm_playback out in
      let on = enable_new on1 u pcm_capture inp in
      let heard = if is_voice_call on u then unmute p on else on in
      let a =
        if_of (SameStreams s) (is_voice_call s u)
          (do_routing_for_call p s (view_out_devices lay s u.stream)) s
          (λ e. do_routing-SameStreams p s (view_out_devices lay s u.stream))
          (λ e. same_streams s) in
      let b = SameStreams-trans s routed off a (
        SameStreams-trans routed off1 off (disable_old-SameStreams routed u u.out_snd_device)
          (disable_old-SameStreams off1 u u.in_snd_device)) in
      let c = SameStreams-trans s off on b (
        SameStreams-trans off on1 on (enable_new-SameStreams off u pcm_playback out)
          (enable_new-SameStreams on1 u pcm_capture inp)) in
      let d = SameStreams-trans s on heard c (
        if_of (SameStreams on) (is_voice_call on u) (unmute p on) on (λ e. unmute-SameStreams p on)
          (λ e. same_streams on)) in
      if_of {A = Ret × AudioDevice} (λ r. SameStreams s r.1)
        (out == u.out_snd_device && inp == u.in_snd_device) _ _ (λ e. same_streams s)
        (λ e. record {
          outs = d.outs;
          ins = d.ins;
          profiles = d.profiles;
          same_control = d.same_control;
          pcms = d.pcms;
        })

  finish_selection-SameStreams :
      (s : AudioDevice) (uc_id : ℕ) (out inp : SndDevice)
      → SameStreams s (finish_selection p lay s uc_id out inp).1
  unfolding finish_selection
  finish_selection-SameStreams s uc_id out inp =
      elim (Option-cases (get_usecase_from_id s.usecase_list uc_id)) [
        | inl absent ↦ rw (absent, finish_selection) (same_streams s)
        | inr (u, f) ↦ rw (f, finish_selection) (switch_devices-SameStreams s u out inp)
      ]

  set_devices-SameStreams :
      (s : AudioDevice) (uc_id devices : ℕ)
      → SameStreams s (set_usecase_devices p lay uc_id devices s)
  set_devices-SameStreams s uc_id devices = record {
    outs = refl;
    ins = refl;
    profiles = refl;
    same_control = refl;
    pcms = same_pcms s.log;
  }

  finish-SameStreams :
      (s t : AudioDevice) (uc_id : ℕ) (out inp : SndDevice)
      → SameStreams s t
      → SameStreams s (finish_selection p lay t uc_id out inp).1
  finish-SameStreams s t uc_id out inp h =
      SameStreams-trans s t _ h (finish_selection-SameStreams t uc_id out inp)

  select_by_type-SameStreams :
      (again : AudioDevice → ℕ → AudioDevice)
      → ((t : AudioDevice) (id : ℕ) → SameStreams t (again t id))
      → (s : AudioDevice) (type : UsecaseType) (u : AudioUsecase)
      → SameStreams s (select_by_type p lay again s type u).1
  unfolding select_by_type
  select_by_type-SameStreams again deep s UsecaseType.voice_call u =
      finish-SameStreams s _ u.id _ _
        (set_devices-SameStreams s u.id (view_out_devices lay s u.stream))
  select_by_type-SameStreams again deep s UsecaseType.pcm_playback u =
      let s' = set_usecase_devices p lay u.id (view_out_devices lay s u.stream) s in
      let moved = set_devices-SameStreams s u.id (view_out_devices lay s u.stream) in
      if_of {A = Ret × AudioDevice} (λ r. SameStreams s r.1)
        ((call_devices p lay s).0 == snd_device_none) _ _
        (λ e. elim (Option-cases (follow_up p lay s' u)) [
          | inl alone ↦ rw alone (finish-SameStreams s s' u.id _ _ moved)
          | inr (id, next) ↦ rw next (
              finish-SameStreams s (again s' id) u.id _ _
                (SameStreams-trans s s' (again s' id) moved (deep s' id)))
        ])
        (λ e. finish-SameStreams s s' u.id _ _ moved)
  select_by_type-SameStreams again deep s UsecaseType.pcm_capture u =
      finish-SameStreams s _ u.id _ _
        (set_devices-SameStreams s u.id (view_in lay s u.stream).devices)

  pub select_devices-SameStreams :
      (fuel : ℕ) (s : AudioDevice) (uc_id : ℕ) → SameStreams s (select_devices p lay fuel s uc_id).1
  unfolding select_devices
  select_devices-SameStreams zero s uc_id = record {
    outs = refl;
    ins = refl;
    profiles = refl;
    same_control = refl;
    pcms = same_pcms s.log;
  }
  select_devices-SameStreams (suc fuel) s uc_id =
      elim (Option-cases (get_usecase_from_id s.usecase_list uc_id)) [
        | inl absent ↦ rw (absent, select_devices) (same_streams s)
        | inr (u, f) ↦
            rw (f, select_devices)
              (select_by_type-SameStreams (λ t id. (select_devices p lay fuel t id).1)
                (λ t id. select_devices-SameStreams fuel t id) s u.type u)
      ]
