-- ===== src/Audio/Select/Switch.antt =====
-- The reference counts where a usecase is switched to other devices.
use android_device_samsung_z.Common.{
  ℕ, ◌+◌, ◌<◌, ◌≡◌, refl, ◌∙◌, some, Bool, true, false, Bool-cases, ◌==◌, ◌&&◌, inl, inr,
  if◌then◌else◌, arith,
}
use android_device_samsung_z.Platform.{Platform}
use android_device_samsung_z.Audio.SndDevice.{SndDevice, snd_device_none, snd_device_max}
use android_device_samsung_z.Audio.State.{
  UsecaseType, pcm_playback, pcm_capture, AudioUsecase, AudioDevice, Layout, view_out_devices,
}
use android_device_samsung_z.Audio.Lookup.{get_usecase_from_id}
use android_device_samsung_z.Audio.Route.Count.{is_on}
use android_device_samsung_z.Audio.Route.Invariant.{IsRouted, type_at, type_at-update, find_facts}
use android_device_samsung_z.Audio.Select.{
  set_voice_volume, do_routing_for_call, unmute, is_voice_call, disable_old, enable_new,
  set_devices, switch_devices,
}
use android_device_samsung_z.Audio.Select.Held.{
  IsHeld, IsRouted-IsHeld, IsHeld-same, IsHeld-rest, disable_old-list, disable_old-IsHeld,
  enable_new-IsHeld, enable_new-type_at, IsHeld-IsRouted,
}

-- The counts agree in `t`, and each usecase of `s` is there with its type.
pub record Keeps (s t : AudioDevice) : Type 0 where
  pub routed : IsRouted t
  pub types : (id : ℕ) → type_at t.usecase_list id ≡ type_at s.usecase_list id

-- A pair of devices that fits the type of the usecase.
pub record IsFit (type : UsecaseType) (out inp : SndDevice) : Type 0 where
  pub out_named : out < snd_device_max
  pub in_named : inp < snd_device_max
  pub playback_only : type ≡ pcm_playback → inp ≡ snd_device_none
  pub capture_only : type ≡ pcm_capture → out ≡ snd_device_none

module _ (p : Platform) where
  -- The calls into the RIL change the log and the fault alone.
  do_routing_for_call-frame :
      (s : AudioDevice) (out_device : ℕ)
      → let t = do_routing_for_call p s out_device in
        (t.snd_dev_ref_cnt ≡ s.snd_dev_ref_cnt) × (t.usecase_list ≡ s.usecase_list)
  unfolding do_routing_for_call set_voice_volume
  do_routing_for_call-frame s out_device = (ground arith, ground arith)

  unmute-frame :
      (s : AudioDevice)
      → let t = unmute p s in
        (t.snd_dev_ref_cnt ≡ s.snd_dev_ref_cnt) × (t.usecase_list ≡ s.usecase_list)
  unfolding unmute
  unmute-frame s = (ground arith, ground arith)

  module _ (u : AudioUsecase) (rest : SndDevice → ℕ) where
    routed-IsHeld :
        (s : AudioDevice) (voice : Bool) (out_device : ℕ)
        → IsHeld u rest s
        → IsHeld u rest (if voice then do_routing_for_call p s out_device else s)
    routed-IsHeld s true out_device h =
        let (c, l) = do_routing_for_call-frame s out_device in
        IsHeld-same u rest s (do_routing_for_call p s out_device) c l h
    routed-IsHeld s false out_device h = h

    heard-IsHeld :
        (s : AudioDevice) (voice : Bool)
        → IsHeld u rest s
        → IsHeld u rest (if voice then unmute p s else s)
    heard-IsHeld s true h = let (c, l) = unmute-frame s in IsHeld-same u rest s (unmute p s) c l h
    heard-IsHeld s false h = h

  routed-list :
      (s : AudioDevice) (voice : Bool) (out_device : ℕ)
      → (if voice then do_routing_for_call p s out_device else s).usecase_list ≡ s.usecase_list
  routed-list s true out_device = (do_routing_for_call-frame s out_device).1
  routed-list s false out_device = refl

  heard-list :
      (s : AudioDevice) (voice : Bool)
      → (if voice then unmute p s else s).usecase_list ≡ s.usecase_list
  heard-list s true = (unmute-frame s).1
  heard-list s false = refl

module _ (p : Platform) (lay : Layout) where
  module _ (s : AudioDevice) (u : AudioUsecase) (out inp : SndDevice) where
    -- The states that `switch_devices` goes through.
    abbrev routed_state : AudioDevice
    routed_state =
        if is_voice_call s u then do_routing_for_call p s (view_out_devices lay s u.stream) else s

    abbrev off_state : AudioDevice
    off_state = disable_old (disable_old routed_state u u.out_snd_device) u u.in_snd_device

    abbrev on_state : AudioDevice
    on_state = enable_new (enable_new off_state u pcm_playback out) u pcm_capture inp

    abbrev heard_state : AudioDevice
    heard_state = if is_voice_call on_state u then unmute p on_state else on_state

    heard_state-type_at : (id : ℕ) → type_at heard_state.usecase_list id ≡ type_at s.usecase_list id
    heard_state-type_at id = rw (
      heard-list p on_state (is_voice_call on_state u),
      enable_new-type_at u (enable_new off_state u pcm_playback out) pcm_capture inp id,
      enable_new-type_at u off_state pcm_playback out id,
      disable_old-list u (disable_old routed_state u u.out_snd_device) u.in_snd_device,
      disable_old-list u routed_state u.out_snd_device,
      routed-list p s (is_voice_call s u) (view_out_devices lay s u.stream),
    )

    heard_state-IsHeld :
        IsRouted s
        → get_usecase_from_id s.usecase_list u.id ≡ some u
        → IsFit u.type out inp
        → IsHeld u (λ e. is_on out e + is_on inp e) heard_state
    heard_state-IsHeld h f fit =
        let shape = (find_facts s.usecase_list u.id u f h.shaped).2 in
        heard-IsHeld p u (λ e. is_on out e + is_on inp e) on_state (is_voice_call on_state u)
          (enable_new-IsHeld u (λ e. is_on out e) (enable_new off_state u pcm_playback out)
            pcm_capture inp fit.in_named (ground arith)
            (IsHeld-rest u (λ e. 0 + is_on out e) (λ e. is_on out e)
              (enable_new off_state u pcm_playback out) (λ e. omega arith)
              (enable_new-IsHeld u (λ e. 0) off_state pcm_playback out fit.out_named refl
                (disable_old-IsHeld u (λ e. is_on u.in_snd_device e) (λ e. 0)
                  (disable_old routed_state u u.out_snd_device) u.in_snd_device shape.in_named
                  (λ e. omega arith)
                  (disable_old-IsHeld u (λ e. is_on u.out_snd_device e + is_on u.in_snd_device e)
                    (λ e. is_on u.in_snd_device e) routed_state u.out_snd_device shape.out_named
                    (λ e. refl)
                    (routed-IsHeld p u (λ e. is_on u.out_snd_device e + is_on u.in_snd_device e) s
                      (is_voice_call s u) (view_out_devices lay s u.stream)
                      (IsRouted-IsHeld u s h f)))))))

    pub switch_devices-Keeps :
        IsRouted s
        → get_usecase_from_id s.usecase_list u.id ≡ some u
        → IsFit u.type out inp
        → Keeps s (switch_devices p lay s u out inp).1
    unfolding switch_devices
    switch_devices-Keeps h f fit =
        elim (Bool-cases (out == u.out_snd_device && inp == u.in_snd_device)) [
          | inl same ↦ rw same (record { routed = h; types = λ id. refl })
          | inr other ↦
              let shape = (find_facts s.usecase_list u.id u f h.shaped).2 in
              rw other (record {
                routed =
                    IsHeld-IsRouted u heard_state out inp (heard_state-IsHeld h f fit) (record {
                      out_named = fit.out_named;
                      in_named = fit.in_named;
                      playback_only = fit.playback_only;
                      capture_only = fit.capture_only;
                    });
                types = λ id.
                    type_at-update u.id (set_devices out inp) heard_state.usecase_list id
                      (λ v. (refl, refl))
                    ∙ heard_state-type_at id;
              })
        ]
