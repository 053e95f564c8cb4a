-- ===== src/Audio/Route/Pair.antt =====
-- `enable_snd_device` and `disable_snd_device` as a pair, and when the mixers hear of them.
use android_device_samsung_z.Common.{
  ℕ, ◌+◌, ◌-◌, ◌<◌, ◌≡◌, refl, none, List, [], ◌∷◌, ◌++◌, ◌==◌, arith, if◌then◌else◌,
}
use android_device_samsung_z.Platform.{Call}
use android_device_samsung_z.Audio.SndDevice.{SndDevice, snd_device_max}
use android_device_samsung_z.Audio.State.{AudioDevice, update, record_call}
use android_device_samsung_z.Audio.Lookup.Types.{get_usecase_from_type-playback}
use android_device_samsung_z.Audio.Route.{
  apply_paths, reset_paths, enable_snd_device, disable_snd_device,
}
use android_device_samsung_z.Audio.Route.Count.{
  name_of_lt, enable-count, enable-list, disable-count, disable-list,
}

-- The calls that apply, or reset, the path of `d` on each mixer, the last one first.
abbrev pub applied : List ℕ → SndDevice → List Call
applied [] d = []
applied (m ∷ ms) d = applied ms d ++ Call.audio_route_apply m d ∷ []

abbrev pub reset : List ℕ → SndDevice → List Call
reset [] d = []
reset (m ∷ ms) d = reset ms d ++ Call.audio_route_reset m d ∷ []

snoc-append : (xs : List Call) (c : Call) (ys : List Call) → (xs ++ c ∷ []) ++ ys ≡ xs ++ c ∷ ys
snoc-append [] c ys = refl
snoc-append (x ∷ xs) c ys = ground (arith, snoc-append xs c ys)

apply_paths-log :
    (ms : List ℕ) (d : SndDevice) (s : AudioDevice)
    → (apply_paths ms d s).log ≡ applied ms d ++ s.log
unfolding apply_paths
apply_paths-log [] d s = refl
apply_paths-log (m ∷ ms) d s = ground (
  arith,
  apply_paths-log ms d (record_call (Call.audio_route_apply m d) s),
  snoc-append (applied ms d) (Call.audio_route_apply m d) s.log,
)

reset_paths-log :
    (ms : List ℕ) (d : SndDevice) (s : AudioDevice)
    → (reset_paths ms d none s).log ≡ reset ms d ++ s.log
unfolding reset_paths
reset_paths-log [] d s = refl
reset_paths-log (m ∷ ms) d s = ground (
  arith,
  reset_paths-log ms d (record_call (Call.audio_route_reset m d) s),
  snoc-append (reset ms d) (Call.audio_route_reset m d) s.log,
)

module _ (s : AudioDevice) (ms : List ℕ) (d : SndDevice) (named : d < snd_device_max) where
  -- For a device of the enumeration, `enable_snd_device` applies its path on each mixer of the
  -- usecase, in their order, exactly where the count was 0, and calls nothing otherwise.
  pub enable_snd_device-log :
      (enable_snd_device s ms d).1.log
      ≡ (if s.snd_dev_ref_cnt d == 0 then applied ms d ++ s.log else s.log)
  unfolding enable_snd_device
  enable_snd_device-log = ground (
    arith,
    name_of_lt d named,
    apply_paths-log ms d
        (record s { snd_dev_ref_cnt = update s.snd_dev_ref_cnt d (s.snd_dev_ref_cnt d + 1) }),
  )

  -- For a device of the enumeration, `disable_snd_device` resets its path on each mixer of the
  -- usecase, in their order, exactly where the count was 1, and calls nothing otherwise; the
  -- playback path is never applied again.
  pub disable_snd_device-log :
      (disable_snd_device s ms d).1.log
      ≡ (if s.snd_dev_ref_cnt d == 1 then reset ms d ++ s.log else s.log)
  unfolding disable_snd_device
  disable_snd_device-log = ground (
    arith,
    name_of_lt d named,
    get_usecase_from_type-playback s.usecase_list,
    reset_paths-log ms d
        (record s { snd_dev_ref_cnt = update s.snd_dev_ref_cnt d (s.snd_dev_ref_cnt d - 1) }),
  )

  -- For a device of the enumeration, `disable_snd_device` after `enable_snd_device` gives back
  -- every reference count, and both leave the usecases alone.
  pub disable-enable :
      let t = (enable_snd_device s ms d).1 in
      let r = (disable_snd_device t ms d).1 in
      ((e : SndDevice) → r.snd_dev_ref_cnt e ≡ s.snd_dev_ref_cnt e)
      × (r.usecase_list ≡ s.usecase_list)
  disable-enable =
      let t = (enable_snd_device s ms d).1 in
      (
        λ e. omega (arith, enable-count s ms d e named, disable-count t ms d e named),
        ground (arith, enable-list s ms d, disable-list t ms d),
      )
