-- ===== src/Audio/Route.antt =====
-- Sound devices and their reference counts: `enable_snd_device`, `disable_snd_device` and
-- `check_and_route_usecases` of audio/audio_hw.c. A `struct audio_usecase *` in an argument is the
-- usecase, or the mixer list that is read through it.
pub mod Count
pub mod Invariant
pub mod Backend
pub mod Flags
pub mod Reroute
pub mod Members
pub mod Pair
pub mod Pcms
use android_device_samsung_z.Common.{
  ℕ, suc, ◌+◌, ◌-◌, Bool, true, false, Option, none, some, List, [], ◌∷◌, ◌++◌, not, ◌&&◌, ◌||◌,
  ◌==◌, leb, ltb, if◌then◌else◌,
}
use android_device_samsung_z.Platform.{Call, Ret, success, failed, einval}
use android_device_samsung_z.Audio.SndDevice.{
  SndDevice, snd_device_none, snd_device_in_begin, get_snd_device_name,
}
use android_device_samsung_z.Audio.State.{
  UsecaseType, pcm_playback, type_bits, same_type, AudioUsecase, AudioDevice, update, record_call,
}
use android_device_samsung_z.Audio.Lookup.{get_usecase_from_type, remove_usecase}

-- `audio_route_apply_and_update_path` on every mixer of the list.
pub apply_paths : List ℕ → SndDevice → AudioDevice → AudioDevice
apply_paths [] d s = s
apply_paths (m ∷ ms) d s = apply_paths ms d (record_call (Call.audio_route_apply m d) s)

unfoldable pub enable_snd_device : AudioDevice → (mixers : List ℕ) → SndDevice → Ret × AudioDevice
enable_snd_device s mixers d =
    let counted = record s {
      snd_dev_ref_cnt = update s.snd_dev_ref_cnt d (s.snd_dev_ref_cnt d + 1);
    } in
    elim (get_snd_device_name d) [
      | none ↦ (failed einval, s)
      | some name ↦ (
        success,
        if ltb 1 (counted.snd_dev_ref_cnt d) then counted else apply_paths mixers d counted,
      )
    ]

-- The playback device to apply again behind a capture device, if one is found.
abbrev cycled : SndDevice → Option AudioUsecase → Option SndDevice
cycled d none = none
cycled d (some u) = if ltb snd_device_in_begin d then some u.out_snd_device else none

abbrev apply_again : ℕ → Option SndDevice → AudioDevice → AudioDevice
apply_again m none s = s
apply_again m (some out) s = record_call (Call.audio_route_apply m out) s

-- `audio_route_reset_and_update_path` on every mixer of the list.
pub reset_paths : List ℕ → SndDevice → Option SndDevice → AudioDevice → AudioDevice
reset_paths [] d again s = s
reset_paths (m ∷ ms) d again s =
    reset_paths ms d again (apply_again m again (record_call (Call.audio_route_reset m d) s))

unfoldable pub disable_snd_device : AudioDevice → (mixers : List ℕ) → SndDevice → Ret × AudioDevice
disable_snd_device s mixers d =
    let out_uc_info = get_usecase_from_type s.usecase_list (type_bits pcm_playback) in
    let counted = record s {
      snd_dev_ref_cnt = update s.snd_dev_ref_cnt d (s.snd_dev_ref_cnt d - 1);
    } in
    elim (get_snd_device_name d) [
      | none ↦ (failed einval, s)
      | some name ↦ if leb (s.snd_dev_ref_cnt d) 0 then (failed einval, s) else (
        success,
        if counted.snd_dev_ref_cnt d == 0
            then reset_paths mixers d (cycled d out_uc_info) counted
            else counted,
      )
    ]

-- The device that a usecase of the type plays or captures on, and the write of it.
abbrev pub snd_device_of : UsecaseType → AudioUsecase → SndDevice
snd_device_of type u = if same_type type pcm_playback then u.out_snd_device else u.in_snd_device

abbrev pub set_snd_device : UsecaseType → SndDevice → AudioUsecase → AudioUsecase
set_snd_device type d u =
    if same_type type pcm_playback
    then record u { out_snd_device = d }
    else record u { in_snd_device = d }

abbrev pub needs_switch : UsecaseType → SndDevice → AudioUsecase → Bool
needs_switch type d u = same_type u.type type && not (snd_device_of type u == d)

-- `switch_device[id]` after the first loop, which walks the usecases other than `uc_info`.
unfoldable pub switch_device : UsecaseType → SndDevice → List AudioUsecase → ℕ → Bool
switch_device type d [] id = false
switch_device type d (u ∷ us) id =
    (needs_switch type d u && u.id == id) || switch_device type d us id

unfoldable pub need_switch : UsecaseType → SndDevice → List AudioUsecase → Bool
need_switch type d [] = false
need_switch type d (u ∷ us) = needs_switch type d u || need_switch type d us

-- One round of the second loop, at the usecase `u` between `before` and `after`.
pub switch_usecase :
    UsecaseType
    → SndDevice
    → (before : List AudioUsecase) → AudioUsecase
    → List AudioUsecase
    → AudioDevice
    → AudioDevice
unfolding disable_snd_device enable_snd_device
switch_usecase type d before u after s =
    let off = (disable_snd_device s u.mixer_list (snd_device_of type u)).1 in
    let on = (enable_snd_device off u.mixer_list d).1 in
    record on { usecase_list = before ++ set_snd_device type d u ∷ after }

pub switch_loop :
    UsecaseType
    → SndDevice
    → (switch : ℕ → Bool) → (before after : List AudioUsecase) → AudioDevice
    → AudioDevice
unfolding switch_usecase
switch_loop type d switch before [] s = s
switch_loop type d switch before (u ∷ us) s =
    let u' = if switch u.id then set_snd_device type d u else u in
    let s' = if switch u.id then switch_usecase type d before u us s else s in
    switch_loop type d switch (before ++ u' ∷ []) us s'

-- `uc_info` is the first usecase with the id `uc_id`.
unfoldable pub check_and_route_usecases :
    AudioDevice → (uc_id : ℕ) → UsecaseType → SndDevice → AudioDevice
unfolding switch_loop switch_device need_switch
check_and_route_usecases s uc_id type d =
    let others = remove_usecase uc_id s.usecase_list in
    if need_switch type d others
    then switch_loop type d (switch_device type d others) [] s.usecase_list s
    else s
