-- ===== src/Audio/Lookup.antt =====
-- The searches of audio/audio_hw.c over the mixers, the usecases and the PCM profiles.
pub mod Types
use android_device_samsung_z.Common.{
  ℕ, suc, Option, none, some, List, [], ◌∷◌, ◌&&◌, ◌==◌, bit_and, has, clear, if◌then◌else◌,
}
use android_device_samsung_z.Platform.{Platform}
use android_device_samsung_z.Audio.State.{
  UsecaseType, type_bits, same_type, PcmProfile, AudioUsecase,
}

-- `adev_get_mixer_for_card` and `uc_get_mixer_for_card` over the list that each walks.
unfoldable pub get_mixer_for_card : List ℕ → ℕ → Option ℕ
get_mixer_for_card [] card = none
get_mixer_for_card (m ∷ ms) card = if m == card then some m else get_mixer_for_card ms card

unfoldable pub get_usecase_from_id : List AudioUsecase → ℕ → Option AudioUsecase
get_usecase_from_id [] uc_id = none
get_usecase_from_id (u ∷ us) uc_id = if u.id == uc_id then some u else get_usecase_from_id us uc_id

-- `type` is tested as a set of bits.
unfoldable pub get_usecase_from_type : List AudioUsecase → (type : ℕ) → Option AudioUsecase
get_usecase_from_type [] type = none
get_usecase_from_type (u ∷ us) type =
    if has (type_bits u.type) type then some u else get_usecase_from_type us type

-- The profile and its place in `pcm_devices`.
find_profile : List PcmProfile → UsecaseType → (devices place : ℕ) → Option (ℕ × PcmProfile)
find_profile [] type devices place = none
find_profile (q ∷ qs) type devices place =
    if same_type q.type type && bit_and devices q.devices == devices
    then some (place, q)
    else find_profile qs type devices (suc place)

unfoldable pub get_pcm_device :
    Platform → List PcmProfile → UsecaseType → (devices : ℕ) → Option (ℕ × PcmProfile)
unfolding find_profile
get_pcm_device p table type devices =
    let devices' = clear devices p.bit_in in
    if devices' == 0 then none else find_profile table type devices' 0

-- What the pointer that `get_usecase_from_id` returned can do to the list: the write through it,
-- and `list_remove`. Both concern the first usecase with the id.
unfoldable pub update_usecase :
    ℕ → (AudioUsecase → AudioUsecase) → List AudioUsecase → List AudioUsecase
update_usecase uc_id f [] = []
update_usecase uc_id f (u ∷ us) = if u.id == uc_id then f u ∷ us else u ∷ update_usecase uc_id f us

unfoldable pub remove_usecase : ℕ → List AudioUsecase → List AudioUsecase
remove_usecase uc_id [] = []
remove_usecase uc_id (u ∷ us) = if u.id == uc_id then us else u ∷ remove_usecase uc_id us
