-- ===== src/Audio/Lookup/Types.antt =====
-- Searches for a usecase by its type, which the code takes as a set of bits.
use android_device_samsung_z.Common.{has, false, ◌≡◌, refl, none, List, [], ◌∷◌, arith}
use android_device_samsung_z.Audio.State.{UsecaseType, pcm_playback, type_bits, AudioUsecase}
use android_device_samsung_z.Audio.Lookup.{get_usecase_from_type}

no_bit : (type : UsecaseType) → has (type_bits type) (type_bits pcm_playback) ≡ false
no_bit UsecaseType.pcm_playback = refl
no_bit UsecaseType.pcm_capture = refl
no_bit UsecaseType.voice_call = refl

-- A search for a usecase by the type PCM_PLAYBACK, which is 0 and so has no bit, finds nothing in
-- any list.
pub get_usecase_from_type-playback :
    (us : List AudioUsecase) → get_usecase_from_type us (type_bits pcm_playback) ≡ none
unfolding get_usecase_from_type
get_usecase_from_type-playback [] = refl
get_usecase_from_type-playback (u ∷ us) =
    ground (arith, no_bit u.type, get_usecase_from_type-playback us)
