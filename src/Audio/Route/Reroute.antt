-- ===== src/Audio/Route/Reroute.antt =====
-- `check_and_route_usecases` as a whole: the counts follow, the list keeps its shape, and the
-- other usecases of the type end on the one device.
use android_device_samsung_z.Common.{
  ℕ, ◌+◌, ◌<◌, ◌≡◌, refl, ◌≢◌, Bool, false, List, [], All, Bool-cases, inl, inr, if◌then◌else◌,
  arith,
}
use android_device_samsung_z.Audio.SndDevice.{SndDevice, snd_device_none, snd_device_max}
use android_device_samsung_z.Audio.State.{UsecaseType, AudioUsecase, AudioDevice}
use android_device_samsung_z.Audio.Lookup.{get_usecase_from_id, remove_usecase}
use android_device_samsung_z.Audio.Route.{switch_device, need_switch, check_and_route_usecases}
use android_device_samsung_z.Audio.Route.Count.{Routes}
use android_device_samsung_z.Audio.Route.Invariant.{held_beside, type_at, Distinct, IsShaped}
use android_device_samsung_z.Audio.Route.Backend.{
  IsRoutedTo, switched, switched-Distinct, switched-IsShaped, switched-snd_device, remove-switched,
  find-switched, type_at-switched, switch_loop-list, switch_loop-Routes, switch_loop-count,
}
use android_device_samsung_z.Audio.Route.Flags.{
  switch_device-has_id, has_id-remove_self, switch_device-remove, switch_device-IsOfType,
  switch_device-flags, need_switch_none,
}

module _ (s : AudioDevice) (uc_id : ℕ) (type : UsecaseType) (d : SndDevice) where
  abbrev others : List AudioUsecase
  others = remove_usecase uc_id s.usecase_list

  abbrev flags : ℕ → Bool
  flags = switch_device type d others

  pub check_and_route-Routes : Routes s (check_and_route_usecases s uc_id type d)
  unfolding check_and_route_usecases
  check_and_route-Routes = elim (Bool-cases (need_switch type d others)) [
    | inl needed ↦ rw needed (switch_loop-Routes type d flags [] s.usecase_list s)
    | inr quiet ↦ rw quiet refl
  ]

  -- The list afterwards: as it was, or with the flagged usecases moved.
  pub check_and_route-list :
      (check_and_route_usecases s uc_id type d).usecase_list
      ≡ (if need_switch type d others then switched type d flags s.usecase_list else s.usecase_list)
  unfolding check_and_route_usecases
  check_and_route-list = elim (Bool-cases (need_switch type d others)) [
    | inl needed ↦ rw needed (switch_loop-list type d flags [] s.usecase_list s refl)
    | inr quiet ↦ rw quiet refl
  ]

  -- After `check_and_route_usecases` every usecase of the type, other than the one it is called
  -- for, is on the device.
  pub check_and_route-IsRoutedTo :
      All
        (λ u. IsRoutedTo type d u)
        (remove_usecase uc_id (check_and_route_usecases s uc_id type d).usecase_list)
  check_and_route-IsRoutedTo =
      rw check_and_route-list (elim (Bool-cases (need_switch type d others)) [
        | inl needed ↦
            rw (needed, remove-switched type d flags uc_id s.usecase_list)
              (switched-snd_device type d flags others (switch_device-flags type d others))
        | inr quiet ↦ rw quiet (need_switch_none type d others quiet)
      ])

  module _ (distinct : Distinct s.usecase_list) (shaped : All IsShaped s.usecase_list)
      (named : d < snd_device_max) where
    own_id_not_flagged : flags uc_id ≡ false
    own_id_not_flagged = elim (Bool-cases (flags uc_id)) [
      | inl f ↦ ground (
        arith,
        switch_device-has_id type d others uc_id f,
        has_id-remove_self uc_id s.usecase_list distinct,
      )
      | inr e ↦ e
    ]

    pub check_and_route-Distinct : Distinct (check_and_route_usecases s uc_id type d).usecase_list
    check_and_route-Distinct =
        rw check_and_route-list (elim (Bool-cases (need_switch type d others)) [
          | inl needed ↦ rw needed (switched-Distinct type d flags s.usecase_list distinct)
          | inr quiet ↦ rw quiet distinct
        ])

    pub check_and_route-IsShaped :
        All IsShaped (check_and_route_usecases s uc_id type d).usecase_list
    check_and_route-IsShaped =
        rw check_and_route-list (elim (Bool-cases (need_switch type d others)) [
          | inl needed ↦ rw needed (
              switched-IsShaped type d flags s.usecase_list named shaped (λ id f.
                switch_device-IsOfType type d s.usecase_list id distinct
                  (switch_device-remove type d uc_id id s.usecase_list f)))
          | inr quiet ↦ rw quiet shaped
        ])

    -- The counts of the other usecases follow, beside any fixed number of further uses.
    pub check_and_route-count :
        (rest : SndDevice → ℕ)
        → d ≢ snd_device_none
        → rest 0 ≡ 0
        → ((e : SndDevice) → s.snd_dev_ref_cnt e ≡ rest e + held_beside uc_id e s.usecase_list)
        → (e : SndDevice)
        → (check_and_route_usecases s uc_id type d).snd_dev_ref_cnt e
          ≡ rest e + held_beside uc_id e (check_and_route_usecases s uc_id type d).usecase_list
    check_and_route-count rest some_device r0 h e =
        rw check_and_route-list (elim (Bool-cases (need_switch type d others)) [
          | inl needed ↦ rw needed (
              unfold check_and_route_usecases in
              rw needed (
                switch_loop-count type d flags uc_id rest [] s.usecase_list s own_id_not_flagged
                  some_device named shaped r0 h e))
          | inr quiet ↦ rw quiet (unfold check_and_route_usecases in rw quiet (h e))
        ])

    pub check_and_route-find :
        get_usecase_from_id (check_and_route_usecases s uc_id type d).usecase_list uc_id
        ≡ get_usecase_from_id s.usecase_list uc_id
    check_and_route-find = rw check_and_route-list (elim (Bool-cases (need_switch type d others)) [
      | inl needed ↦ rw needed (find-switched type d flags uc_id s.usecase_list own_id_not_flagged)
      | inr quiet ↦ rw quiet refl
    ])

  pub check_and_route-type_at :
      (id : ℕ)
      → type_at (check_and_route_usecases s uc_id type d).usecase_list id
        ≡ type_at s.usecase_list id
  check_and_route-type_at id =
      rw check_and_route-list (elim (Bool-cases (need_switch type d others)) [
        | inl needed ↦ rw needed (type_at-switched type d flags s.usecase_list id)
        | inr quiet ↦ rw quiet refl
      ])
