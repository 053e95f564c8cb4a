-- ===== src/Audio/Route/Count.antt =====
-- What `enable_snd_device` and `disable_snd_device` do to the reference counts and to the log.
use android_device_samsung_z.Common.{
  ℕ, ◌+◌, ◌-◌, ◌<◌, ◌≡◌, refl, ◌≢◌, ◌⊎◌, Option, none, some, List, [], ◌∷◌, ◌==◌, not, ◌&&◌,
  get_elem?-lt, if◌then◌else◌, arith,
}
use android_device_samsung_z.Platform.{Call}
use android_device_samsung_z.Audio.SndDevice.{
  SndDevice, snd_device_max, device_table, get_snd_device_name,
}
use android_device_samsung_z.Audio.State.{pcm_playback, type_bits, AudioDevice, update, record_call}
use android_device_samsung_z.Audio.Lookup.{get_usecase_from_type}
use android_device_samsung_z.Audio.Route.{
  apply_paths, cycled, reset_paths, enable_snd_device, disable_snd_device,
}

-- `t` is `s` but for the reference counts, the list of usecases and the log.
abbrev pub Routes : AudioDevice → AudioDevice → Type 0
Routes s t =
    t ≡ record s { snd_dev_ref_cnt = t.snd_dev_ref_cnt; usecase_list = t.usecase_list; log = t.log }

pub Routes-trans : (s t u : AudioDevice) → Routes s t → Routes t u → Routes s u
Routes-trans s t u f g = ground arith

-- `t` is `s` but for the log.
abbrev pub Logs : AudioDevice → AudioDevice → Type 0
Logs s t = t ≡ record s { log = t.log }

pub Logs-trans : (s t u : AudioDevice) → Logs s t → Logs t u → Logs s u
Logs-trans s t u f g = ground arith

pub apply_paths-Logs : (ms : List ℕ) (d : SndDevice) (s : AudioDevice) → Logs s (apply_paths ms d s)
unfolding apply_paths
apply_paths-Logs [] d s = refl
apply_paths-Logs (m ∷ ms) d s =
    let s' = record_call (Call.audio_route_apply m d) s in
    Logs-trans s s' (apply_paths ms d s') refl (apply_paths-Logs ms d s')

pub reset_paths-Logs :
    (ms : List ℕ) (d : SndDevice) (again : Option SndDevice) (s : AudioDevice)
    → Logs s (reset_paths ms d again s)
unfolding reset_paths
reset_paths-Logs [] d again s = refl
reset_paths-Logs (m ∷ ms) d none s =
    let s' = record_call (Call.audio_route_reset m d) s in
    Logs-trans s s' (reset_paths ms d none s') refl (reset_paths-Logs ms d none s')
reset_paths-Logs (m ∷ ms) d (some out) s =
    let s' =
      record_call (Call.audio_route_apply m out) (record_call (Call.audio_route_reset m d) s) in
    Logs-trans s s' (reset_paths ms d (some out) s') refl (reset_paths-Logs ms d (some out) s')

-- Every value of the enumeration has a name.
pub name_of_lt : (d : SndDevice) → d < snd_device_max → get_snd_device_name d ≢ none
unfolding get_snd_device_name
name_of_lt d h = ground (arith, get_elem?-lt device_table d)

-- 1 where the sound device `x` is `e` and not NONE.
abbrev pub is_on : SndDevice → SndDevice → ℕ
is_on x e = if (x == e) && not (e == 0) then 1 else 0

-- Without a name for NONE in the way: a device of the enumeration is counted up.
pub enable-count :
    (s : AudioDevice) (ms : List ℕ) (d e : SndDevice)
    → d < snd_device_max
    → (enable_snd_device s ms d).1.snd_dev_ref_cnt e
      ≡ s.snd_dev_ref_cnt e + (if e == d then 1 else 0)
unfolding enable_snd_device
enable-count s ms d e h = ground (
  arith,
  name_of_lt d h,
  apply_paths-Logs ms d
      (record s { snd_dev_ref_cnt = update s.snd_dev_ref_cnt d (s.snd_dev_ref_cnt d + 1) }),
)

pub enable-Routes :
    (s : AudioDevice) (ms : List ℕ) (d : SndDevice) → Routes s (enable_snd_device s ms d).1
unfolding enable_snd_device
enable-Routes s ms d = ground (
  arith,
  apply_paths-Logs ms d
      (record s { snd_dev_ref_cnt = update s.snd_dev_ref_cnt d (s.snd_dev_ref_cnt d + 1) }),
)

pub enable-list :
    (s : AudioDevice) (ms : List ℕ) (d : SndDevice)
    → (enable_snd_device s ms d).1.usecase_list ≡ s.usecase_list
unfolding enable_snd_device
enable-list s ms d = ground (
  arith,
  apply_paths-Logs ms d
      (record s { snd_dev_ref_cnt = update s.snd_dev_ref_cnt d (s.snd_dev_ref_cnt d + 1) }),
)

-- What is left of a count where the device `d` is disabled; a count of 0 stays.
disable-counted :
    (s : AudioDevice) (ms : List ℕ) (d : SndDevice)
    → let s' = record s {
      snd_dev_ref_cnt = update s.snd_dev_ref_cnt d (s.snd_dev_ref_cnt d - 1);
    } in
      let t = (disable_snd_device s ms d).1 in (t ≡ s) ⊎ Logs s' t
unfolding disable_snd_device
disable-counted s ms d = ground (
  arith,
  reset_paths-Logs ms d (cycled d (get_usecase_from_type s.usecase_list (type_bits pcm_playback)))
      (record s { snd_dev_ref_cnt = update s.snd_dev_ref_cnt d (s.snd_dev_ref_cnt d - 1) }),
)

pub disable-count :
    (s : AudioDevice) (ms : List ℕ) (d e : SndDevice)
    → d < snd_device_max
    → (disable_snd_device s ms d).1.snd_dev_ref_cnt e
      ≡ s.snd_dev_ref_cnt e - (if e == d then 1 else 0)
unfolding disable_snd_device
disable-count s ms d e h = ground (
  arith,
  name_of_lt d h,
  reset_paths-Logs ms d (cycled d (get_usecase_from_type s.usecase_list (type_bits pcm_playback)))
      (record s { snd_dev_ref_cnt = update s.snd_dev_ref_cnt d (s.snd_dev_ref_cnt d - 1) }),
)

pub disable-Routes :
    (s : AudioDevice) (ms : List ℕ) (d : SndDevice) → Routes s (disable_snd_device s ms d).1
disable-Routes s ms d = ground (arith, disable-counted s ms d)

pub disable-list :
    (s : AudioDevice) (ms : List ℕ) (d : SndDevice)
    → (disable_snd_device s ms d).1.usecase_list ≡ s.usecase_list
disable-list s ms d = ground (arith, disable-counted s ms d)
