-- ===== src/Audio/Select/Held.antt =====
-- The reference counts inside `select_devices`, between its disabling of the old devices and the
-- write of the new ones.
use android_device_samsung_z.Common.{
  ℕ, ◌+◌, ◌-◌, ◌<◌, ◌≡◌, refl, ◌≢◌, ◌∙◌, some, ◌==◌, All, Bool-cases, inl, inr, arith,
}
use android_device_samsung_z.Audio.SndDevice.{SndDevice, snd_device_none, snd_device_max}
use android_device_samsung_z.Audio.State.{UsecaseType, AudioUsecase, AudioDevice}
use android_device_samsung_z.Audio.Lookup.{get_usecase_from_id, update_usecase}
use android_device_samsung_z.Audio.Route.{enable_snd_device, check_and_route_usecases}
use android_device_samsung_z.Audio.Route.Count.{
  is_on, enable-count, enable-list, disable-count, disable-list,
}
use android_device_samsung_z.Audio.Route.Invariant.{
  held_beside, Distinct, IsShaped, IsRouted, type_at, held_split, held-update, update-Distinct,
  update-IsShaped,
}
use android_device_samsung_z.Audio.Route.Reroute.{
  check_and_route-count, check_and_route-Distinct, check_and_route-IsShaped, check_and_route-find,
  check_and_route-type_at,
}
use android_device_samsung_z.Audio.Select.{disable_old, enable_new, set_devices}

-- The usecase `u` is in the list, and `rest` counts the uses besides those of the others.
pub record IsHeld (u : AudioUsecase) (rest : SndDevice → ℕ) (s : AudioDevice) : Type 0 where
  pub counted : (e : SndDevice) → s.snd_dev_ref_cnt e ≡ rest e + held_beside u.id e s.usecase_list
  pub shaped : All IsShaped s.usecase_list
  pub distinct : Distinct s.usecase_list
  pub found : get_usecase_from_id s.usecase_list u.id ≡ some u

module _ (u : AudioUsecase) where
  pub IsRouted-IsHeld :
      (s : AudioDevice)
      → IsRouted s
      → get_usecase_from_id s.usecase_list u.id ≡ some u
      → IsHeld u (λ e. is_on u.out_snd_device e + is_on u.in_snd_device e) s
  IsRouted-IsHeld s h f = record {
    counted = λ e. h.counted e ∙ held_split u.id e s.usecase_list u h.distinct f;
    shaped = h.shaped;
    distinct = h.distinct;
    found = f;
  }

  -- The same with the list and the counts of another state.
  pub IsHeld-same :
      (rest : SndDevice → ℕ) (s t : AudioDevice)
      → t.snd_dev_ref_cnt ≡ s.snd_dev_ref_cnt
      → t.usecase_list ≡ s.usecase_list
      → IsHeld u rest s
      → IsHeld u rest t
  IsHeld-same rest s t c l h = record {
    counted = λ e. rw (c, l) (h.counted e);
    shaped = rw l h.shaped;
    distinct = rw l h.distinct;
    found = rw l h.found;
  }

  pub IsHeld-rest :
      (rest rest' : SndDevice → ℕ) (s : AudioDevice)
      → ((e : SndDevice) → rest e ≡ rest' e)
      → IsHeld u rest s
      → IsHeld u rest' s
  IsHeld-rest rest rest' s same h = record {
    counted = λ e. ground (arith, h.counted e, same e);
    shaped = h.shaped;
    distinct = h.distinct;
    found = h.found;
  }

  disable_old-count :
      (s : AudioDevice) (d e : SndDevice)
      → d < snd_device_max
      → (disable_old s u d).snd_dev_ref_cnt e ≡ s.snd_dev_ref_cnt e - is_on d e
  unfolding disable_old
  disable_old-count s d e h = ground (arith, disable-count s u.mixer_list d e)

  pub disable_old-list :
      (s : AudioDevice) (d : SndDevice) → (disable_old s u d).usecase_list ≡ s.usecase_list
  unfolding disable_old
  disable_old-list s d = ground (arith, disable-list s u.mixer_list d)

  pub disable_old-IsHeld :
      (rest rest' : SndDevice → ℕ) (s : AudioDevice) (d : SndDevice)
      → d < snd_device_max
      → ((e : SndDevice) → rest e ≡ is_on d e + rest' e)
      → IsHeld u rest s
      → IsHeld u rest' (disable_old s u d)
  disable_old-IsHeld rest rest' s d dm split h = record {
    counted = λ e.
        rw (disable_old-count s d e dm, disable_old-list s d, h.counted e, split e) (omega arith);
    shaped = rw (disable_old-list s d) h.shaped;
    distinct = rw (disable_old-list s d) h.distinct;
    found = rw (disable_old-list s d) h.found;
  }

  -- A device that is not NONE is taken for `u` once the other usecases have moved to it.
  enabled-IsHeld :
      (rest : SndDevice → ℕ) (s : AudioDevice) (type : UsecaseType) (d : SndDevice)
      → d ≢ snd_device_none
      → d < snd_device_max
      → rest 0 ≡ 0
      → IsHeld u rest s
      → IsHeld u
          (λ e. rest e + is_on d e)
          (enable_snd_device (check_and_route_usecases s u.id type d) u.mixer_list d).1
  enabled-IsHeld rest s type d dn dm r0 h =
      let t = check_and_route_usecases s u.id type d in
      record {
        counted = λ e.
            rw (enable-count t u.mixer_list d e dm, enable-list t u.mixer_list d)
              (ground (
                arith,
                check_and_route-count s u.id type d h.distinct h.shaped dm rest dn r0 h.counted e,
              ));
        shaped =
            rw (enable-list t u.mixer_list d)
              (check_and_route-IsShaped s u.id type d h.distinct h.shaped dm);
        distinct =
            rw (enable-list t u.mixer_list d)
              (check_and_route-Distinct s u.id type d h.distinct h.shaped dm);
        found =
            rw (enable-list t u.mixer_list d)
              (check_and_route-find s u.id type d h.distinct h.shaped dm ∙ h.found);
      }

  pub enable_new-IsHeld :
      (rest : SndDevice → ℕ) (s : AudioDevice) (type : UsecaseType) (d : SndDevice)
      → d < snd_device_max
      → rest 0 ≡ 0
      → IsHeld u rest s
      → IsHeld u (λ e. rest e + is_on d e) (enable_new s u type d)
  unfolding enable_new
  enable_new-IsHeld rest s type d dm r0 h = elim (Bool-cases (d == snd_device_none)) [
    | inl nothing ↦ rw nothing (record {
      counted = λ e. ground (arith, h.counted e);
      shaped = h.shaped;
      distinct = h.distinct;
      found = h.found;
    })
    | inr chosen ↦ rw chosen (enabled-IsHeld rest s type d (ground arith) dm r0 h)
  ]

  pub enable_new-type_at :
      (s : AudioDevice) (type : UsecaseType) (d : SndDevice) (id : ℕ)
      → type_at (enable_new s u type d).usecase_list id ≡ type_at s.usecase_list id
  unfolding enable_new
  enable_new-type_at s type d id = ground (
    arith,
    enable-list (check_and_route_usecases s u.id type d) u.mixer_list d,
    check_and_route-type_at s u.id type d id,
  )

  -- Once the new devices are written the counts agree again.
  pub IsHeld-IsRouted :
      (s : AudioDevice) (out inp : SndDevice)
      → IsHeld u (λ e. is_on out e + is_on inp e) s
      → IsShaped (set_devices out inp u)
      → IsRouted
          (record s { usecase_list = update_usecase u.id (set_devices out inp) s.usecase_list })
  IsHeld-IsRouted s out inp h shape = record {
    counted = λ e. ground (
      arith,
      h.counted e,
      held-update u.id e (set_devices out inp) s.usecase_list u h.distinct h.found,
    );
    shaped = update-IsShaped u.id (set_devices out inp) s.usecase_list u h.found shape h.shaped;
    distinct = update-Distinct u.id (set_devices out inp) s.usecase_list (λ v. refl) h.distinct;
  }
