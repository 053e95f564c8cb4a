-- ===== src/Audio/Route/Backend.antt =====
-- `check_and_route_usecases`: what the second loop does to the list and to the counts.
use android_device_samsung_z.Common.{
  ℕ, ◌+◌, ◌-◌, ◌<◌, ◌≡◌, refl, ◌≢◌, ◌∙◌, sym, ap, Bool, true, false, List, [], ◌∷◌, ◌++◌, ◌==◌, All,
  Bool-cases, ==_self, inl, inr, if◌then◌else◌, arith,
}
use mathlib.Core.List.{append_assoc}
use android_device_samsung_z.Audio.SndDevice.{SndDevice, snd_device_none, snd_device_max}
use android_device_samsung_z.Audio.State.{UsecaseType, same_type, AudioUsecase, AudioDevice}
use android_device_samsung_z.Audio.Lookup.{get_usecase_from_id, remove_usecase}
use android_device_samsung_z.Audio.Route.{
  disable_snd_device, snd_device_of, set_snd_device, needs_switch, switch_usecase, switch_loop,
}
use android_device_samsung_z.Audio.Route.Count.{
  Routes, Routes-trans, enable-count, enable-Routes, disable-count, disable-Routes,
}
use android_device_samsung_z.Audio.Route.Invariant.{
  held_by, held_beside, held_beside_none, has_id, type_at, Distinct, IsShaped,
}

-- A usecase with the id is of the type.
abbrev pub IsOfType : UsecaseType → ℕ → AudioUsecase → Type 0
IsOfType type id u = (u.id == id) ≡ true → same_type u.type type ≡ true

-- A usecase of the type is on `d`.
abbrev pub IsRoutedTo : UsecaseType → SndDevice → AudioUsecase → Type 0
IsRoutedTo type d u = same_type u.type type ≡ true → snd_device_of type u ≡ d

set_snd_device-IsShaped :
    (type : UsecaseType) (d : SndDevice) (u : AudioUsecase)
    → d < snd_device_max
    → IsShaped u
    → ((u.id == u.id) ≡ true → same_type u.type type ≡ true)
    → IsShaped (set_snd_device type d u)
set_snd_device-IsShaped type d u dm h same = ground (arith, same (==_self u.id))

snd_device_of-set_snd_device :
    (type : UsecaseType) (d : SndDevice) (u : AudioUsecase)
    → snd_device_of type (set_snd_device type d u) ≡ d
snd_device_of-set_snd_device type d u = ground arith

module _ (type : UsecaseType) (d : SndDevice) (switch : ℕ → Bool) where
  -- The list that the loop leaves: every flagged usecase has the new device.
  abbrev pub switched : List AudioUsecase → List AudioUsecase
  switched [] = []
  switched (u ∷ us) = (if switch u.id then set_snd_device type d u else u) ∷ switched us

  pub has_id-switched :
      (uc_id : ℕ) (us : List AudioUsecase) → has_id uc_id (switched us) ≡ has_id uc_id us
  has_id-switched uc_id [] = refl
  has_id-switched uc_id (u ∷ us) = ground (arith, has_id-switched uc_id us)

  pub switched-Distinct : (us : List AudioUsecase) → Distinct us → Distinct (switched us)
  switched-Distinct [] h = tt
  switched-Distinct (u ∷ us) h = ground (arith, has_id-switched u.id us, switched-Distinct us h.1)

  switch_usecase-list :
      (before after : List AudioUsecase) (u : AudioUsecase) (s : AudioDevice)
      → (switch_usecase type d before u after s).usecase_list
        ≡ before ++ set_snd_device type d u ∷ after
  unfolding switch_usecase
  switch_usecase-list before after u s = refl

  switch_usecase-Routes :
      (before after : List AudioUsecase) (u : AudioUsecase) (s : AudioDevice)
      → Routes s (switch_usecase type d before u after s)
  unfolding switch_usecase
  switch_usecase-Routes before after u s =
      let off = (disable_snd_device s u.mixer_list (snd_device_of type u)).1 in
      ground (
        arith,
        disable-Routes s u.mixer_list (snd_device_of type u),
        enable-Routes off u.mixer_list d,
      )

  -- One usecase is moved from its device to `d`.
  switch_usecase-count :
      (before after : List AudioUsecase) (u : AudioUsecase) (s : AudioDevice) (e : SndDevice)
      → IsShaped u
      → d < snd_device_max
      → (switch_usecase type d before u after s).snd_dev_ref_cnt e
        ≡ s.snd_dev_ref_cnt e
          - (if e == snd_device_of type u then 1 else 0)
          + (if e == d then 1 else 0)
  unfolding switch_usecase
  switch_usecase-count before after u s e shape h =
      let off = (disable_snd_device s u.mixer_list (snd_device_of type u)).1 in
      ground (
        arith,
        disable-count s u.mixer_list (snd_device_of type u) e,
        enable-count off u.mixer_list d e h,
      )

  -- One round of the loop, by whether the usecase is flagged.
  switch_loop-moved :
      (before after : List AudioUsecase) (u : AudioUsecase) (s : AudioDevice)
      → switch u.id ≡ true
      → switch_loop type d switch before (u ∷ after) s
        ≡ switch_loop type d switch
            (before ++ set_snd_device type d u ∷ [])
            after
            (switch_usecase type d before u after s)
  unfolding switch_loop
  switch_loop-moved before after u s h =
      ap
        (λ b.
          switch_loop type d switch (before ++ (if b then set_snd_device type d u else u) ∷ [])
            after (if b then switch_usecase type d before u after s else s))
        h

  switch_loop-stays :
      (before after : List AudioUsecase) (u : AudioUsecase) (s : AudioDevice)
      → switch u.id ≡ false
      → switch_loop type d switch before (u ∷ after) s
        ≡ switch_loop type d switch (before ++ u ∷ []) after s
  unfolding switch_loop
  switch_loop-stays before after u s h =
      ap
        (λ b.
          switch_loop type d switch (before ++ (if b then set_snd_device type d u else u) ∷ [])
            after (if b then switch_usecase type d before u after s else s))
        h

  pub switch_loop-list :
      (before after : List AudioUsecase) (s : AudioDevice)
      → s.usecase_list ≡ before ++ after
      → (switch_loop type d switch before after s).usecase_list ≡ before ++ switched after
  unfolding switch_loop
  switch_loop-list before [] s h = h
  switch_loop-list before (u ∷ us) s h = elim (Bool-cases (switch u.id)) [
    | inl moved ↦
        rw (switch_loop-moved before us u s moved, moved)
          (switch_loop-list (before ++ set_snd_device type d u ∷ []) us
              (switch_usecase type d before u us s)
              (switch_usecase-list before us u s
                ∙ sym (append_assoc before (set_snd_device type d u ∷ []) us))
            ∙ append_assoc before (set_snd_device type d u ∷ []) (switched us))
    | inr stays ↦
        rw (switch_loop-stays before us u s stays, stays)
          (switch_loop-list (before ++ u ∷ []) us s (h ∙ sym (append_assoc before (u ∷ []) us))
            ∙ append_assoc before (u ∷ []) (switched us))
  ]

  pub switch_loop-Routes :
      (before after : List AudioUsecase) (s : AudioDevice)
      → Routes s (switch_loop type d switch before after s)
  unfolding switch_loop
  switch_loop-Routes before [] s = refl
  switch_loop-Routes before (u ∷ us) s = elim (Bool-cases (switch u.id)) [
    | inl moved ↦
        let s' = switch_usecase type d before u us s in
        let before' = before ++ set_snd_device type d u ∷ [] in
        rw (switch_loop-moved before us u s moved) (
          Routes-trans s s' (switch_loop type d switch before' us s')
            (switch_usecase-Routes before us u s) (switch_loop-Routes before' us s'))
    | inr stays ↦
        rw (switch_loop-stays before us u s stays) (switch_loop-Routes (before ++ u ∷ []) us s)
  ]

  -- The counts follow the list, for the usecases other than those of `uc_id`, beside any fixed
  -- number of other uses.
  pub switch_loop-count :
      (uc_id : ℕ) (rest : SndDevice → ℕ) (before after : List AudioUsecase) (s : AudioDevice)
      → switch uc_id ≡ false
      → d ≢ snd_device_none
      → d < snd_device_max
      → All IsShaped after
      → rest 0 ≡ 0
      → ((e : SndDevice) → s.snd_dev_ref_cnt e ≡ rest e + held_beside uc_id e after)
      → (e : SndDevice)
      → (switch_loop type d switch before after s).snd_dev_ref_cnt e
        ≡ rest e + held_beside uc_id e (switched after)
  unfolding switch_loop
  switch_loop-count uc_id rest before [] s off dn dm shaped r0 h e = h e
  switch_loop-count uc_id rest before (u ∷ us) s off dn dm shaped r0 h e =
      elim (Bool-cases (switch u.id)) [
        | inl moved ↦
            rw (switch_loop-moved before us u s moved, moved)
              (switch_loop-count uc_id (λ x. rest x + held_by x (set_snd_device type d u))
                  (before ++ set_snd_device type d u ∷ []) us (switch_usecase type d before u us s)
                  off dn dm shaped.1 (ground arith)
                  (λ x. ground (
                    arith,
                    h x,
                    h 0,
                    held_beside_none uc_id us,
                    switch_usecase-count before us u s x shaped.0 dm,
                  ))
                  e
                ∙ ground arith)
        | inr stays ↦
            rw (switch_loop-stays before us u s stays, stays)
              (switch_loop-count uc_id (λ x. rest x + (if u.id == uc_id then 0 else held_by x u))
                  (before ++ u ∷ []) us s off dn dm shaped.1 (ground arith)
                  (λ x. ground (arith, h x)) e
                ∙ ground arith)
      ]

  -- Where each flagged usecase is of the type, the loop keeps the shapes.
  pub switched-IsShaped :
      (us : List AudioUsecase)
      → d < snd_device_max
      → All IsShaped us
      → ((id : ℕ) → switch id ≡ true → All (λ u. IsOfType type id u) us)
      → All IsShaped (switched us)
  switched-IsShaped [] dm h typed = tt
  switched-IsShaped (u ∷ us) dm h typed = (
    elim (Bool-cases (switch u.id)) [
      | inl moved ↦ rw moved (set_snd_device-IsShaped type d u dm h.0 (typed u.id moved).0)
      | inr stays ↦ rw stays h.0
    ],
    switched-IsShaped us dm h.1 (λ id m. (typed id m).1),
  )

  -- Every usecase whose need to switch is flagged ends on `d`.
  pub switched-snd_device :
      (us : List AudioUsecase)
      → All (λ u. needs_switch type d u ≡ true → switch u.id ≡ true) us
      → All (λ u. IsRoutedTo type d u) (switched us)
  switched-snd_device [] h = tt
  switched-snd_device (u ∷ us) h = (
    elim (Bool-cases (switch u.id)) [
      | inl moved ↦ rw moved (λ t. snd_device_of-set_snd_device type d u)
      | inr stays ↦ rw stays (λ t. ground (arith, h.0))
    ],
    switched-snd_device us h.1,
  )

  pub remove-switched :
      (uc_id : ℕ) (us : List AudioUsecase)
      → remove_usecase uc_id (switched us) ≡ switched (remove_usecase uc_id us)
  unfolding remove_usecase
  remove-switched uc_id [] = refl
  remove-switched uc_id (u ∷ us) = ground (arith, remove-switched uc_id us)

  -- A usecase whose id is not flagged is found as it was.
  pub find-switched :
      (uc_id : ℕ) (us : List AudioUsecase)
      → switch uc_id ≡ false
      → get_usecase_from_id (switched us) uc_id ≡ get_usecase_from_id us uc_id
  unfolding get_usecase_from_id
  find-switched uc_id [] off = refl
  find-switched uc_id (u ∷ us) off = elim (Bool-cases (u.id == uc_id)) [
    | inl same ↦ ground (arith, find-switched uc_id us off)
    | inr other ↦ ground (arith, find-switched uc_id us off)
  ]

  pub type_at-switched :
      (us : List AudioUsecase) (id : ℕ) → type_at (switched us) id ≡ type_at us id
  type_at-switched [] id = refl
  type_at-switched (u ∷ us) id = ground (arith, type_at-switched us id)
