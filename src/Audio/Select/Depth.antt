-- ===== src/Audio/Select/Depth.antt =====
-- The recursion of `select_devices` of audio/audio_hw.c ends, and follows no NULL pointer.
use android_device_samsung_z.Common.{
  ℕ, suc, ◌≡◌, refl, sym, ap, ◌∙◌, Option, none, some, Option-cases, List, [], ◌∷◌, ◌==◌, ◌&&◌, inl,
  inr, if_of, if◌then◌else◌, arith,
}
use mathlib.Core.Path.{subst}
use android_device_samsung_z.Platform.{Platform, Ret}
use android_device_samsung_z.Audio.SndDevice.{SndDevice, snd_device_none}
use android_device_samsung_z.Audio.State.{
  UsecaseType, pcm_playback, pcm_capture, Stream, of_in, AudioUsecase, AudioDevice, Layout, view_in,
  view_out_devices,
}
use android_device_samsung_z.Audio.Lookup.{
  get_usecase_from_id, get_usecase_from_type, update_usecase,
}
use android_device_samsung_z.Audio.Input.{active_input_of}
use android_device_samsung_z.Audio.Route.{check_and_route_usecases}
use android_device_samsung_z.Audio.Route.Count.{enable-Routes, disable-Routes}
use android_device_samsung_z.Audio.Route.Invariant.{type_at, type_at-update}
use android_device_samsung_z.Audio.Route.Reroute.{check_and_route-Routes}
use android_device_samsung_z.Audio.Select.{
  set_voice_volume, do_routing_for_call, unmute, call_devices, is_voice_call, disable_old,
  enable_new, switch_devices, finish_selection, set_usecase_devices, follow_up, select_by_type,
  select_devices, select_depth,
}

-- The primary output and the mark of a fault stay.
record IsSound (s t : AudioDevice) : Type 0 where
  primary : t.primary_output ≡ s.primary_output
  fault : t.fault ≡ s.fault

sound : (s : AudioDevice) → IsSound s s
sound s = record { primary = refl; fault = refl }

IsSound-trans : (s t r : AudioDevice) → IsSound s t → IsSound t r → IsSound s r
IsSound-trans s t r f g = record { primary = g.primary ∙ f.primary; fault = g.fault ∙ f.fault }

disable_old-IsSound :
    (s : AudioDevice) (u : AudioUsecase) (d : SndDevice) → IsSound s (disable_old s u d)
unfolding disable_old
disable_old-IsSound s u d = ground (arith, disable-Routes s u.mixer_list d)

enable_new-IsSound :
    (s : AudioDevice) (u : AudioUsecase) (type : UsecaseType) (d : SndDevice)
    → IsSound s (enable_new s u type d)
unfolding enable_new
enable_new-IsSound s u type d = ground (
  arith,
  check_and_route-Routes s u.id type d,
  enable-Routes (check_and_route_usecases s u.id type d) u.mixer_list d,
)

-- The usecase that a search by type finds keeps its stream as devices are written.
abbrev stream_of : Option AudioUsecase → Option Stream
stream_of none = none
stream_of (some u) = some u.stream

stream_of-update :
    (uc_id devices type : ℕ) (us : List AudioUsecase)
    → stream_of
        (get_usecase_from_type (update_usecase uc_id (λ u. record u { devices = devices }) us) type)
      ≡ stream_of (get_usecase_from_type us type)
unfolding get_usecase_from_type update_usecase
stream_of-update uc_id devices type [] = refl
stream_of-update uc_id devices type (u ∷ us) =
    ground (arith, stream_of-update uc_id devices type us)

found-type_at :
    (us : List AudioUsecase) (uc_id : ℕ) (u : AudioUsecase)
    → get_usecase_from_id us uc_id ≡ some u
    → type_at us uc_id ≡ some u.type
unfolding get_usecase_from_id
found-type_at [] uc_id u h = absurd (cc h)
found-type_at (v ∷ us) uc_id u h = ground (arith, h, found-type_at us uc_id u)

-- The active input is a capture's stream.
pub data IsListening (s : AudioDevice) : Type 0 where
  deaf : get_usecase_from_type s.usecase_list 3 ≡ none → IsListening s
  listening :
      (u : AudioUsecase) (i : ℕ)
      → get_usecase_from_type s.usecase_list 3 ≡ some u
      → u.stream ≡ of_in i
      → type_at s.usecase_list (s.ins i).usecase ≡ some pcm_capture
      → IsListening s

module _ (p : Platform) where
  do_routing-IsSound :
      (s : AudioDevice) (out_device o : ℕ)
      → s.primary_output ≡ some o
      → IsSound s (do_routing_for_call p s out_device)
  unfolding do_routing_for_call set_voice_volume
  do_routing-IsSound s out_device o h = ground arith

  unmute-IsSound : (s : AudioDevice) → IsSound s (unmute p s)
  unfolding unmute
  unmute-IsSound s = ground arith

module _ (p : Platform) (lay : Layout) where
  switch_devices-IsSound :
      (s : AudioDevice) (u : AudioUsecase) (out inp : SndDevice) (o : ℕ)
      → s.primary_output ≡ some o
      → IsSound s (switch_devices p lay s u out inp).1
  unfolding switch_devices
  switch_devices-IsSound s u out inp o h =
      let routed =
        if is_voice_call s u
        then do_routing_for_call p s (view_out_devices lay s u.stream)
        else s in
      let off1 = disable_old routed u u.out_snd_device in
      let off = disable_old off1 u u.in_snd_device in
      let on1 = enable_new off u pcm_playback out in
      let on = enable_new on1 u pcm_capture inp in
      let heard = if is_voice_call on u then unmute p on else on in
      let a =
        if_of (IsSound s) (is_voice_call s u)
          (do_routing_for_call p s (view_out_devices lay s u.stream)) s
          (λ e. do_routing-IsSound p s (view_out_devices lay s u.stream) o h) (λ e. sound s) in
      let b = IsSound-trans s routed off a (
        IsSound-trans routed off1 off (disable_old-IsSound routed u u.out_snd_device)
          (disable_old-IsSound off1 u u.in_snd_device)) in
      let c = IsSound-trans s off on b (
        IsSound-trans off on1 on (enable_new-IsSound off u pcm_playback out)
          (enable_new-IsSound on1 u pcm_capture inp)) in
      let d = IsSound-trans s on heard c (
        if_of (IsSound on) (is_voice_call on u) (unmute p on) on (λ e. unmute-IsSound p on)
          (λ e. sound on)) in
      if_of {A = Ret × AudioDevice} (λ r. IsSound s r.1)
        (out == u.out_snd_device && inp == u.in_snd_device) _ _ (λ e. sound s)
        (λ e. record { primary = d.primary; fault = d.fault })

  finish-IsSound :
      (s t : AudioDevice) (uc_id : ℕ) (out inp : SndDevice) (o : ℕ)
      → s.primary_output ≡ some o
      → IsSound s t
      → IsSound s (finish_selection p lay t uc_id out inp).1
  unfolding finish_selection
  finish-IsSound s t uc_id out inp o h st =
      elim (Option-cases (get_usecase_from_id t.usecase_list uc_id)) [
        | inl absent ↦ rw (absent, finish_selection) st
        | inr (u, f) ↦
            rw (f, finish_selection)
              (IsSound-trans s t _ st (switch_devices-IsSound t u out inp o (st.primary ∙ h)))
      ]

  moved-IsSound :
      (s : AudioDevice) (uc_id devices : ℕ) → IsSound s (set_usecase_devices p lay uc_id devices s)
  moved-IsSound s uc_id devices = record { primary = refl; fault = refl }

  select_by_capture-IsSound :
      (again : AudioDevice → ℕ → AudioDevice) (s : AudioDevice) (u : AudioUsecase) (o : ℕ)
      → s.primary_output ≡ some o
      → IsSound s (select_by_type p lay again s pcm_capture u).1
  unfolding select_by_type
  select_by_capture-IsSound again s u o h =
      finish-IsSound s _ u.id _ _ o h (moved-IsSound s u.id (view_in lay s u.stream).devices)

  -- A capture is selected without recursion.
  select_capture-IsSound :
      (fuel : ℕ) (s : AudioDevice) (uc_id o : ℕ)
      → s.primary_output ≡ some o
      → type_at s.usecase_list uc_id ≡ some pcm_capture
      → IsSound s (select_devices p lay (suc fuel) s uc_id).1
  unfolding select_devices
  select_capture-IsSound fuel s uc_id o h capture =
      elim (Option-cases (get_usecase_from_id s.usecase_list uc_id)) [
        | inl absent ↦ rw (absent, select_devices) (sound s)
        | inr (u, f) ↦
            let again : AudioDevice → ℕ → AudioDevice =
              λ t id. (select_devices p lay fuel t id).1 in
            let type : u.type ≡ pcm_capture =
              cc (sym (found-type_at s.usecase_list uc_id u f) ∙ capture) in
            rw (f, select_devices)
              (subst (λ t. IsSound s (select_by_type p lay again s t u).1) (sym type)
                (select_by_capture-IsSound again s u o h))
      ]

  -- What follows a playback is the selection of the active input's usecase.
  follow_up-stream :
      (s : AudioDevice) (u : AudioUsecase) (uc_id i : ℕ)
      → stream_of (get_usecase_from_type s.usecase_list 3) ≡ some (of_in i)
      → follow_up p lay s u ≡ some uc_id
      → uc_id ≡ (s.ins i).usecase
  unfolding follow_up active_input_of
  follow_up-stream s u uc_id i active e =
      elim (Option-cases (get_usecase_from_type s.usecase_list 3)) [
        | inl absent ↦ absurd (cc (sym active ∙ ap stream_of absent))
        | inr (v, found) ↦
            let stream : v.stream ≡ of_in i = cc (sym (ap stream_of found) ∙ active) in
            ground (arith, e, found, stream)
      ]

  follow_up-alone :
      (s : AudioDevice) (u : AudioUsecase)
      → stream_of (get_usecase_from_type s.usecase_list 3) ≡ none
      → follow_up p lay s u ≡ none
  unfolding follow_up active_input_of
  follow_up-alone s u none_active = elim (Option-cases (get_usecase_from_type s.usecase_list 3)) [
    | inl absent ↦ rw (absent, follow_up) refl
    | inr (v, found) ↦ absurd (cc (sym (ap stream_of found) ∙ none_active))
  ]

  follow-IsSound :
      (s : AudioDevice) (u : AudioUsecase) (devices o uc_id : ℕ)
      → s.primary_output ≡ some o
      → IsListening s
      → let s' = set_usecase_devices p lay u.id devices s in
        follow_up p lay s' u ≡ some uc_id → IsSound s' (select_devices p lay 1 s' uc_id).1
  follow-IsSound s u devices o uc_id h (IsListening.deaf none_found) next =
      let s' = set_usecase_devices p lay u.id devices s in
      let same = stream_of-update u.id devices 3 s.usecase_list in
      absurd (cc (sym next ∙ follow_up-alone s' u (same ∙ ap stream_of none_found)))
  follow-IsSound s u devices o uc_id h (IsListening.listening v i found stream capture) next =
      let s' = set_usecase_devices p lay u.id devices s in
      let same = stream_of-update u.id devices 3 s.usecase_list in
      let its = follow_up-stream s' u uc_id i (same ∙ ap stream_of found ∙ ap some stream) next in
      let set : AudioUsecase → AudioUsecase = λ w. record w { devices = devices } in
      select_capture-IsSound 0 s' uc_id o h (
        type_at-update u.id set s.usecase_list uc_id (λ w. (refl, refl))
        ∙ ap (type_at s.usecase_list) its
        ∙ capture)

  select_by_playback-IsSound :
      (s : AudioDevice) (u : AudioUsecase) (o : ℕ)
      → s.primary_output ≡ some o
      → IsListening s
      → IsSound s
          (select_by_type p lay (λ t id. (select_devices p lay 1 t id).1) s pcm_playback u).1
  unfolding select_by_type
  select_by_playback-IsSound s u o h active =
      let devices = view_out_devices lay s u.stream in
      let s' = set_usecase_devices p lay u.id devices s in
      let moved = moved-IsSound s u.id devices in
      if_of {A = Ret × AudioDevice} (λ r. IsSound s r.1)
        ((call_devices p lay s).0 == snd_device_none) _ _
        (λ e. elim (Option-cases (follow_up p lay s' u)) [
          | inl alone ↦ rw alone (finish-IsSound s s' u.id _ _ o h moved)
          | inr (id, next) ↦ rw next (
              finish-IsSound s (select_devices p lay 1 s' id).1 u.id _ _ o h
                (IsSound-trans s s' _ moved (follow-IsSound s u devices o id h active next)))
        ])
        (λ e. finish-IsSound s s' u.id _ _ o h moved)

  select_by_type-IsSound :
      (s : AudioDevice) (type : UsecaseType) (u : AudioUsecase) (o : ℕ)
      → s.primary_output ≡ some o
      → IsListening s
      → IsSound s (select_by_type p lay (λ t id. (select_devices p lay 1 t id).1) s type u).1
  select_by_type-IsSound s UsecaseType.voice_call u o h active =
      unfold select_by_type in
      finish-IsSound s _ u.id _ _ o h (moved-IsSound s u.id (view_out_devices lay s u.stream))
  select_by_type-IsSound s UsecaseType.pcm_playback u o h active =
      select_by_playback-IsSound s u o h active
  select_by_type-IsSound s UsecaseType.pcm_capture u o h active =
      select_by_capture-IsSound (λ t id. (select_devices p lay 1 t id).1) s u o h

  -- Where there is a primary output, and no capture and no voice call is in the list or the first
  -- of them has an input stream whose usecase is a capture of the list: `select_devices` with the
  -- fuel `select_depth` leaves `fault` as it was, so it runs out of fuel nowhere and follows no
  -- NULL pointer.
  pub select_devices-ends :
      (s : AudioDevice) (uc_id o : ℕ)
      → s.primary_output ≡ some o
      → IsListening s
      → (select_devices p lay select_depth s uc_id).1.fault ≡ s.fault
  unfolding select_devices
  select_devices-ends s uc_id o h active =
      elim (Option-cases (get_usecase_from_id s.usecase_list uc_id)) [
        | inl absent ↦ rw (absent, select_devices) refl
        | inr (u, f) ↦ rw (f, select_devices) (select_by_type-IsSound s u.type u o h active).fault
      ]
