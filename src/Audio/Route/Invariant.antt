-- ===== src/Audio/Route/Invariant.antt =====
-- The reference counts against the usecases: how often each sound device is in use.
use android_device_samsung_z.Common.{
  ℕ, ◌+◌, ◌<◌, ◌≡◌, refl, Bool, false, Option, none, some, List, [], ◌∷◌, ◌==◌, ◌||◌, All,
  if◌then◌else◌, arith,
}
use android_device_samsung_z.Audio.SndDevice.{SndDevice, snd_device_none, snd_device_max}
use android_device_samsung_z.Audio.State.{
  UsecaseType, pcm_playback, pcm_capture, AudioUsecase, AudioDevice,
}
use android_device_samsung_z.Audio.Lookup.{get_usecase_from_id, update_usecase, remove_usecase}
use android_device_samsung_z.Audio.Route.Count.{is_on}

-- How often the usecase, or the usecases of a list, have `e` as a device. NONE is never counted.
abbrev pub held_by : SndDevice → AudioUsecase → ℕ
held_by e u = is_on u.out_snd_device e + is_on u.in_snd_device e

abbrev pub held : SndDevice → List AudioUsecase → ℕ
held e [] = 0
held e (u ∷ us) = held_by e u + held e us

-- The same without the usecases of one id.
abbrev pub held_beside : ℕ → SndDevice → List AudioUsecase → ℕ
held_beside uc_id e [] = 0
held_beside uc_id e (u ∷ us) = (if u.id == uc_id then 0 else held_by e u) + held_beside uc_id e us

abbrev pub has_id : ℕ → List AudioUsecase → Bool
has_id uc_id [] = false
has_id uc_id (u ∷ us) = (u.id == uc_id) || has_id uc_id us

-- No two usecases of the list have one id.
abbrev pub Distinct : List AudioUsecase → Type 0
Distinct [] = Unit
Distinct (u ∷ us) = (has_id u.id us ≡ false) × Distinct us

-- The type of the first usecase with the id.
abbrev pub type_at : List AudioUsecase → ℕ → Option UsecaseType
type_at [] id = none
type_at (u ∷ us) id = if u.id == id then some u.type else type_at us id

-- A usecase whose devices are named, and are those of its type.
pub record IsShaped (u : AudioUsecase) : Type 0 where
  pub out_named : u.out_snd_device < snd_device_max
  pub in_named : u.in_snd_device < snd_device_max
  pub playback_only : u.type ≡ pcm_playback → u.in_snd_device ≡ snd_device_none
  pub capture_only : u.type ≡ pcm_capture → u.out_snd_device ≡ snd_device_none

-- What holds between two operations of the HAL: every count is the number of uses.
pub record IsRouted (s : AudioDevice) : Type 0 where
  pub counted : (e : SndDevice) → s.snd_dev_ref_cnt e ≡ held e s.usecase_list
  pub shaped : All IsShaped s.usecase_list
  pub distinct : Distinct s.usecase_list

pub held_none : (us : List AudioUsecase) → held 0 us ≡ 0
held_none [] = refl
held_none (u ∷ us) = ground (arith, held_none us)

pub held_beside_none : (uc_id : ℕ) (us : List AudioUsecase) → held_beside uc_id 0 us ≡ 0
held_beside_none uc_id [] = refl
held_beside_none uc_id (u ∷ us) = ground (arith, held_beside_none uc_id us)

pub held_beside_of_absent :
    (uc_id : ℕ) (e : SndDevice) (us : List AudioUsecase)
    → has_id uc_id us ≡ false
    → held_beside uc_id e us ≡ held e us
held_beside_of_absent uc_id e [] h = refl
held_beside_of_absent uc_id e (u ∷ us) h = ground (arith, held_beside_of_absent uc_id e us)

-- The uses are those of the usecase that a search finds, and those beside it.
pub held_split :
    (uc_id : ℕ) (e : SndDevice) (us : List AudioUsecase) (u : AudioUsecase)
    → Distinct us
    → get_usecase_from_id us uc_id ≡ some u
    → held e us ≡ held_by e u + held_beside uc_id e us
unfolding get_usecase_from_id
held_split uc_id e [] u d f = cc
held_split uc_id e (v ∷ us) u d f =
    ground (arith, held_split uc_id e us u d.1, held_beside_of_absent uc_id e us)

pub held-update :
    (uc_id : ℕ) (e : SndDevice) (f : AudioUsecase → AudioUsecase) (us : List AudioUsecase)
    (u : AudioUsecase)
    → Distinct us
    → get_usecase_from_id us uc_id ≡ some u
    → held e (update_usecase uc_id f us) ≡ held_by e (f u) + held_beside uc_id e us
unfolding get_usecase_from_id update_usecase
held-update uc_id e f [] u d g = cc
held-update uc_id e f (v ∷ us) u d g =
    ground (arith, held-update uc_id e f us u d.1, held_beside_of_absent uc_id e us)

pub held-remove :
    (uc_id : ℕ) (e : SndDevice) (us : List AudioUsecase)
    → Distinct us
    → held e (remove_usecase uc_id us) ≡ held_beside uc_id e us
unfolding remove_usecase
held-remove uc_id e [] d = refl
held-remove uc_id e (v ∷ us) d =
    ground (arith, held-remove uc_id e us d.1, held_beside_of_absent uc_id e us)

pub type_at-update :
    (uc_id : ℕ) (f : AudioUsecase → AudioUsecase) (us : List AudioUsecase) (id : ℕ)
    → ((u : AudioUsecase) → ((f u).id ≡ u.id) × ((f u).type ≡ u.type))
    → type_at (update_usecase uc_id f us) id ≡ type_at us id
unfolding update_usecase
type_at-update uc_id f [] id h = refl
type_at-update uc_id f (u ∷ us) id h = ground (arith, h u, type_at-update uc_id f us id h)

pub has_id-update :
    (uc_id : ℕ) (f : AudioUsecase → AudioUsecase) (us : List AudioUsecase) (id : ℕ)
    → ((u : AudioUsecase) → (f u).id ≡ u.id)
    → has_id id (update_usecase uc_id f us) ≡ has_id id us
unfolding update_usecase
has_id-update uc_id f [] id h = refl
has_id-update uc_id f (u ∷ us) id h = ground (arith, h u, has_id-update uc_id f us id h)

pub update-Distinct :
    (uc_id : ℕ) (f : AudioUsecase → AudioUsecase) (us : List AudioUsecase)
    → ((u : AudioUsecase) → (f u).id ≡ u.id)
    → Distinct us
    → Distinct (update_usecase uc_id f us)
unfolding update_usecase
update-Distinct uc_id f [] h d = tt
update-Distinct uc_id f (u ∷ us) h d =
    ground (arith, h u, has_id-update uc_id f us u.id h, update-Distinct uc_id f us h d.1)

pub update-IsShaped :
    (uc_id : ℕ) (f : AudioUsecase → AudioUsecase) (us : List AudioUsecase) (u : AudioUsecase)
    → get_usecase_from_id us uc_id ≡ some u
    → IsShaped (f u)
    → All IsShaped us
    → All IsShaped (update_usecase uc_id f us)
unfolding update_usecase get_usecase_from_id
update-IsShaped uc_id f [] u e h s = tt
update-IsShaped uc_id f (v ∷ us) u e h s = ground (arith, update-IsShaped uc_id f us u)

-- What a search finds has the id, the type and the shape.
pub find_facts :
    (us : List AudioUsecase) (uc_id : ℕ) (u : AudioUsecase)
    → get_usecase_from_id us uc_id ≡ some u
    → All IsShaped us
    → (u.id ≡ uc_id) × (type_at us uc_id ≡ some u.type) × IsShaped u
unfolding get_usecase_from_id
find_facts [] uc_id u e s = cc
find_facts (v ∷ us) uc_id u e s = ground (arith, find_facts us uc_id u)
