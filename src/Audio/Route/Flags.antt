-- ===== src/Audio/Route/Flags.antt =====
-- Which usecases `check_and_route_usecases` flags.
use android_device_samsung_z.Common.{
  ℕ, ◌≡◌, refl, true, false, List, [], ◌∷◌, ◌==◌, ◌||◌, ◌&&◌, All, All-map, Bool-cases, ==_self,
  inl, inr, arith,
}
use android_device_samsung_z.Audio.SndDevice.{SndDevice}
use android_device_samsung_z.Audio.State.{UsecaseType, AudioUsecase}
use android_device_samsung_z.Audio.Lookup.{remove_usecase}
use android_device_samsung_z.Audio.Route.{needs_switch, switch_device, need_switch}
use android_device_samsung_z.Audio.Route.Invariant.{has_id, Distinct}
use android_device_samsung_z.Audio.Route.Backend.{IsOfType, IsRoutedTo}

has_id-remove :
    (uc_id id : ℕ) (us : List AudioUsecase)
    → has_id id (remove_usecase uc_id us) ≡ true
    → has_id id us ≡ true
unfolding remove_usecase
has_id-remove uc_id id [] h = h
has_id-remove uc_id id (u ∷ us) h = ground (arith, has_id-remove uc_id id us)

pub has_id-remove_self :
    (uc_id : ℕ) (us : List AudioUsecase)
    → Distinct us
    → has_id uc_id (remove_usecase uc_id us) ≡ false
unfolding remove_usecase
has_id-remove_self uc_id [] h = refl
has_id-remove_self uc_id (u ∷ us) h = ground (arith, has_id-remove_self uc_id us h.1)

-- The flags, and the operation as a whole.
module _ (type : UsecaseType) (d : SndDevice) where
  pub switch_device-has_id :
      (us : List AudioUsecase) (id : ℕ) → switch_device type d us id ≡ true → has_id id us ≡ true
  unfolding switch_device
  switch_device-has_id [] id h = h
  switch_device-has_id (u ∷ us) id h = ground (arith, switch_device-has_id us id)

  pub switch_device-remove :
      (uc_id id : ℕ) (us : List AudioUsecase)
      → switch_device type d (remove_usecase uc_id us) id ≡ true
      → switch_device type d us id ≡ true
  unfolding remove_usecase switch_device
  switch_device-remove uc_id id [] h = h
  switch_device-remove uc_id id (u ∷ us) h = ground (arith, switch_device-remove uc_id id us)

  IsOfType-absent :
      (id : ℕ) (us : List AudioUsecase) → has_id id us ≡ false → All (λ u. IsOfType type id u) us
  IsOfType-absent id [] h = tt
  IsOfType-absent id (u ∷ us) h = (λ e. ground arith, IsOfType-absent id us (ground arith))

  -- With distinct ids only a usecase of the type is flagged.
  pub switch_device-IsOfType :
      (us : List AudioUsecase) (id : ℕ)
      → Distinct us
      → switch_device type d us id ≡ true
      → All (λ u. IsOfType type id u) us
  unfolding switch_device
  switch_device-IsOfType [] id h f = tt
  switch_device-IsOfType (u ∷ us) id h f = elim (Bool-cases (u.id == id)) [
    | inl same ↦
        (λ e. ground (arith, switch_device-has_id us id), IsOfType-absent id us (ground arith))
    | inr other ↦ (λ e. ground arith, switch_device-IsOfType us id h.1 (ground arith))
  ]

  -- Each usecase that needs to switch has its id flagged.
  pub switch_device-flags :
      (us : List AudioUsecase)
      → All (λ u. needs_switch type d u ≡ true → switch_device type d us u.id ≡ true) us
  unfolding switch_device
  switch_device-flags [] = tt
  switch_device-flags (u ∷ us) = (
    λ n. ground (arith, ==_self u.id),
    All-map (λ v. needs_switch type d v ≡ true → switch_device type d us v.id ≡ true)
        (λ v.
          needs_switch type d v ≡ true
          → ((needs_switch type d u && u.id == v.id) || switch_device type d us v.id) ≡ true)
        (λ v f n. ground (arith, f n)) us (switch_device-flags us),
  )

  pub need_switch_none :
      (us : List AudioUsecase) → need_switch type d us ≡ false → All (λ u. IsRoutedTo type d u) us
  unfolding need_switch
  need_switch_none [] h = tt
  need_switch_none (u ∷ us) h = (λ t. ground arith, need_switch_none us (ground arith))
