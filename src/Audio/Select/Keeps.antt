-- ===== src/Audio/Select/Keeps.antt =====
-- The reference counts along `select_devices`.
use android_device_samsung_z.Common.{
  ℕ, zero, suc, ◌<◌, ◌≡◌, refl, sym, ap, ◌∙◌, Option-cases, some, Bool-cases, ◌==◌, inl, inr,
  if◌then◌else◌, arith,
}
use mathlib.Core.Path.{subst}
use android_device_samsung_z.Platform.{Platform}
use android_device_samsung_z.Audio.SndDevice.{SndDevice, snd_device_none, snd_device_max}
use android_device_samsung_z.Audio.State.{
  UsecaseType, pcm_playback, pcm_capture, usecase_voice_call, AudioUsecase, AudioDevice, Layout,
  view_in, view_out_devices,
}
use android_device_samsung_z.Audio.Lookup.{get_usecase_from_id}
use android_device_samsung_z.Audio.Output.{get_output_snd_device}
use android_device_samsung_z.Audio.Output.Choice.{get_output_snd_device-lt}
use android_device_samsung_z.Audio.Input.{get_input_snd_device}
use android_device_samsung_z.Audio.Input.Choice.{get_input_snd_device-IsInput}
use android_device_samsung_z.Audio.Route.Invariant.{
  IsRouted, type_at, held_split, held-update, type_at-update, update-Distinct, update-IsShaped,
  find_facts,
}
use android_device_samsung_z.Audio.Select.{
  finish_selection, set_usecase_devices, call_devices, capture_device, follow_up, select_by_type,
  select_devices,
}
use android_device_samsung_z.Audio.Select.Switch.{Keeps, IsFit, switch_devices-Keeps}

module _ (p : Platform) (lay : Layout) where
  finish_selection-Keeps :
      (s : AudioDevice) (uc_id : ℕ) (type : UsecaseType) (out inp : SndDevice)
      → IsRouted s
      → type_at s.usecase_list uc_id ≡ some type
      → IsFit type out inp
      → Keeps s (finish_selection p lay s uc_id out inp).1
  unfolding finish_selection
  finish_selection-Keeps s uc_id type out inp h t fit =
      elim (Option-cases (get_usecase_from_id s.usecase_list uc_id)) [
        | inl absent ↦ rw (absent, finish_selection) (record { routed = h; types = λ id. refl })
        | inr (u, f) ↦
            let facts = find_facts s.usecase_list uc_id u f h.shaped in
            let own : get_usecase_from_id s.usecase_list u.id ≡ some u =
              ap (get_usecase_from_id s.usecase_list) facts.0 ∙ f in
            let same : type ≡ u.type = cc (sym t ∙ facts.1) in
            rw (f, finish_selection)
              (switch_devices-Keeps p lay s u out inp h own (subst (λ x. IsFit x out inp) same fit))
      ]

  Keeps-trans : (s t r : AudioDevice) → Keeps s t → Keeps t r → Keeps s r
  Keeps-trans s t r f g = record { routed = g.routed; types = λ id. g.types id ∙ f.types id }

  set_usecase_devices-Keeps :
      (s : AudioDevice) (uc_id devices : ℕ) (u : AudioUsecase)
      → IsRouted s
      → get_usecase_from_id s.usecase_list uc_id ≡ some u
      → Keeps s (set_usecase_devices p lay uc_id devices s)
  set_usecase_devices-Keeps s uc_id devices u h f =
      let set : AudioUsecase → AudioUsecase = λ v. record v { devices = devices } in
      let facts = find_facts s.usecase_list uc_id u f h.shaped in
      record {
        routed = record {
          counted = λ e. ground (
            arith,
            h.counted e,
            held_split uc_id e s.usecase_list u h.distinct f,
            held-update uc_id e set s.usecase_list u h.distinct f,
          );
          shaped =
              update-IsShaped uc_id set s.usecase_list u f
                (record {
                  out_named = facts.2.out_named;
                  in_named = facts.2.in_named;
                  playback_only = facts.2.playback_only;
                  capture_only = facts.2.capture_only;
                })
                h.shaped;
          distinct = update-Distinct uc_id set s.usecase_list (λ v. refl) h.distinct;
        };
        types = λ id. type_at-update uc_id set s.usecase_list id (λ v. (refl, refl));
      }

  call_devices-lt :
      (s : AudioDevice)
      → IsRouted s
      → let (out, inp) = call_devices p lay s in (out < snd_device_max) × (inp < snd_device_max)
  unfolding call_devices
  call_devices-lt s h =
      elim (Option-cases (get_usecase_from_id s.usecase_list usecase_voice_call)) [
        | inl absent ↦ ground arith
        | inr (vc, f) ↦
            let facts = find_facts s.usecase_list usecase_voice_call vc f h.shaped in
            ground (arith, facts.2)
      ]

  get_output-named :
      (s : AudioDevice) (devices : ℕ) → get_output_snd_device p s devices < snd_device_max
  get_output-named s devices = omega (arith, get_output_snd_device-lt p s devices)

  get_input-named :
      (s : AudioDevice) (devices : ℕ) → get_input_snd_device p lay s devices < snd_device_max
  get_input-named s devices = ground (arith, get_input_snd_device-IsInput p lay s devices)

  capture_device-named : (s : AudioDevice) → capture_device p lay s < snd_device_max
  unfolding capture_device
  capture_device-named s = grind (arith, get_input-named)

  module _ (s : AudioDevice) (u : AudioUsecase) (h : IsRouted s)
      (f : get_usecase_from_id s.usecase_list u.id ≡ some u) where
    abbrev moved_state : AudioDevice
    moved_state = set_usecase_devices p lay u.id (view_out_devices lay s u.stream) s

    moved : Keeps s moved_state
    moved = set_usecase_devices-Keeps s u.id (view_out_devices lay s u.stream) u h f

    own_type : type_at s.usecase_list u.id ≡ some u.type
    own_type = (find_facts s.usecase_list u.id u f h.shaped).1

    finish_playback-Keeps :
        (t : AudioDevice) (out : SndDevice)
        → Keeps s t
        → u.type ≡ pcm_playback
        → out < snd_device_max
        → Keeps s (finish_selection p lay t u.id out snd_device_none).1
    finish_playback-Keeps t out k ty lt = Keeps-trans s t _ k (
        finish_selection-Keeps t u.id pcm_playback out snd_device_none k.routed
          (k.types u.id ∙ own_type ∙ ap some ty)
          (record {
            out_named = lt;
            in_named = omega arith;
            playback_only = λ e. refl;
            capture_only = λ e. cc;
          }))

    select_playback-Keeps :
        (again : AudioDevice → ℕ → AudioDevice)
        → ((t : AudioDevice) (id : ℕ) → IsRouted t → Keeps t (again t id))
        → u.type ≡ pcm_playback
        → Keeps s (select_by_type p lay again s pcm_playback u).1
    unfolding select_by_type
    select_playback-Keeps again deep ty =
        elim (Bool-cases ((call_devices p lay s).0 == snd_device_none)) [
          | inl free ↦ rw free (elim (Option-cases (follow_up p lay moved_state u)) [
            | inl alone ↦
                rw alone
                  (finish_playback-Keeps moved_state _ moved ty (get_output-named moved_state _))
            | inr (uc_id, next) ↦ rw next (
                finish_playback-Keeps (again moved_state uc_id) _
                  (Keeps-trans s moved_state (again moved_state uc_id) moved
                    (deep moved_state uc_id moved.routed))
                  ty (get_output-named moved_state _))
          ])
          | inr forced ↦
              rw forced (finish_playback-Keeps moved_state _ moved ty (call_devices-lt s h).0)
        ]

    select_capture-Keeps :
        (again : AudioDevice → ℕ → AudioDevice)
        → u.type ≡ pcm_capture
        → Keeps s (select_by_type p lay again s pcm_capture u).1
    unfolding select_by_type
    select_capture-Keeps again ty =
        let s' = set_usecase_devices p lay u.id (view_in lay s u.stream).devices s in
        let set = set_usecase_devices-Keeps s u.id (view_in lay s u.stream).devices u h f in
        let forced = (call_devices p lay s).1 in
        Keeps-trans s s' _ set (
          finish_selection-Keeps s' u.id pcm_capture snd_device_none
            (if forced == snd_device_none then capture_device p lay s' else forced) set.routed
            (set.types u.id ∙ own_type ∙ ap some ty)
            (record {
              out_named = omega arith;
              in_named = ground (arith, capture_device-named s', call_devices-lt s h);
              playback_only = λ e. cc;
              capture_only = λ e. refl;
            }))

  -- The selection for one usecase, where the nested one keeps the counts.
  select_by_type-Keeps :
      (again : AudioDevice → ℕ → AudioDevice)
      → ((t : AudioDevice) (id : ℕ) → IsRouted t → Keeps t (again t id))
      → (s : AudioDevice) (type : UsecaseType) (u : AudioUsecase) → IsRouted s
      → get_usecase_from_id s.usecase_list u.id ≡ some u
      → u.type ≡ type
      → Keeps s (select_by_type p lay again s type u).1
  unfolding select_by_type
  select_by_type-Keeps again deep s UsecaseType.voice_call u h f ty =
      let devices = view_out_devices lay s u.stream in
      let s' = set_usecase_devices p lay u.id devices s in
      let set = set_usecase_devices-Keeps s u.id devices u h f in
      let facts = find_facts s.usecase_list u.id u f h.shaped in
      Keeps-trans s s' _ set (
        finish_selection-Keeps s' u.id UsecaseType.voice_call (get_output_snd_device p s devices)
          (get_input_snd_device p lay s devices) set.routed (set.types u.id ∙ facts.1 ∙ ap some ty)
          (record {
            out_named = get_output-named s devices;
            in_named = get_input-named s devices;
            playback_only = λ e. cc;
            capture_only = λ e. cc;
          }))
  select_by_type-Keeps again deep s UsecaseType.pcm_playback u h f ty =
      select_playback-Keeps s u h f again deep ty
  select_by_type-Keeps again deep s UsecaseType.pcm_capture u h f ty =
      select_capture-Keeps s u h f again ty

  -- From a state in which every reference count is the number of uses of its sound device, each
  -- usecase has devices of its type and no two have one id, `select_devices` ends in such a state,
  -- with any fuel, and each id keeps the type of its usecase.
  pub select_devices-Keeps :
      (fuel : ℕ) (s : AudioDevice) (uc_id : ℕ)
      → IsRouted s
      → Keeps s (select_devices p lay fuel s uc_id).1
  unfolding select_devices
  select_devices-Keeps zero s uc_id h = record {
    routed = record { counted = h.counted; shaped = h.shaped; distinct = h.distinct };
    types = λ id. refl;
  }
  select_devices-Keeps (suc fuel) s uc_id h =
      elim (Option-cases (get_usecase_from_id s.usecase_list uc_id)) [
        | inl absent ↦ rw (absent, select_devices) (record { routed = h; types = λ id. refl })
        | inr (u, f) ↦
            let facts = find_facts s.usecase_list uc_id u f h.shaped in
            rw (f, select_devices)
              (select_by_type-Keeps (λ t id. (select_devices p lay fuel t id).1)
                (λ t id r. select_devices-Keeps fuel t id r) s u.type u h
                (ap (get_usecase_from_id s.usecase_list) facts.0 ∙ f) refl)
      ]
