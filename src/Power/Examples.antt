-- ===== src/Power/Examples.antt =====
-- The theorems on the power HAL at files that hold lines and can be written.
use android_device_samsung_z.Common.{
  if◌then◌else◌, ◌==◌, ℕ, ◌≡◌, refl, ◌⊎◌, true, false, some, [], ◌∷◌, arith,
}
use android_device_samsung_z.Power.{
  SysfsPath, Sysfs, PowerProfile, PowerHint, PowerModule, Chars, cpu0_power_save_freq,
  cpu4_power_save_freq, digit_zero, digit_one, set_power_profile, samsung_power_hint, sysfs_read,
  switch_touchscreen, samsung_power_set_interactive,
}
use android_device_samsung_z.Power.Profile.{
  set_power_profile-restores, samsung_power_hint-power_save, ends_save, is_touch,
}
use android_device_samsung_z.Power.Interactive.{
  touchkey_texts, set_interactive-blocked, set_interactive-free,
}

-- Every file holds the line.
abbrev files : Chars → Sysfs
files text = record {
  writable = λ log path. true;
  text = λ log path. some (some text);
  get_cur_panel_brightness = λ log. some 0;
  built_on_macs18max = false;
  tap_to_wake_node = false;
}

abbrev module_of : PowerProfile → PowerModule
module_of profile = record {
  boostpulse_fd = true;
  boostpulse2_fd = false;
  boost2_fd = false;
  cpu0_max_freq = [];
  cpu4_max_freq = [];
  touchscreen_power_path = true;
  touchkey_power_path = true;
  low_power_mode = false;
  current_power_profile = profile;
  touchkeys_blocked = false;
  log = [];
  fault = false;
}

abbrev balanced : PowerModule
balanced = module_of PowerProfile.profile_balanced

abbrev saving : PowerModule
saving = module_of PowerProfile.profile_power_save

-- "19", with its newline in the file.
set_power_profile_example :
    let saved =
      set_power_profile (files (49 ∷ 57 ∷ 10 ∷ [])) PowerProfile.profile_power_save balanced in
    let t = set_power_profile (files (49 ∷ 57 ∷ 10 ∷ [])) PowerProfile.profile_balanced saved in
    (t.current_power_profile ≡ PowerProfile.profile_balanced)
    × (saved.log
        ≡ (SysfsPath.cpu4_max_freq_path, cpu4_power_save_freq)
          ∷ (SysfsPath.cpu0_max_freq_path, cpu0_power_save_freq)
          ∷ [])
    × (t.log
        ≡ (SysfsPath.cpu4_max_freq_path, 49 ∷ 57 ∷ [])
          ∷ (SysfsPath.cpu0_max_freq_path, 49 ∷ 57 ∷ [])
          ∷ saved.log)
set_power_profile_example =
    set_power_profile-restores (files (49 ∷ 57 ∷ 10 ∷ [])) balanced (49 ∷ 57 ∷ []) (49 ∷ 57 ∷ [])
      refl (λ log. refl) (λ log. refl) (refl, (refl, tt)) (refl, (refl, tt)) (omega arith)
      (omega arith) refl refl

samsung_power_hint_example :
    let t = samsung_power_hint (files []) PowerHint.hint_low_power false saving in
    ((ends_save PowerHint.hint_low_power false ≡ true)
      × (t.current_power_profile ≡ PowerProfile.profile_balanced)
      × (t ≡ set_power_profile (files []) PowerProfile.profile_balanced saving))
    ⊎ ((is_touch PowerHint.hint_low_power ≡ true)
        × (t.current_power_profile ≡ PowerProfile.profile_power_save)
        × (t ≡ switch_touchscreen (files []) true saving))
    ⊎ (ends_save PowerHint.hint_low_power false ≡ false)
      × (is_touch PowerHint.hint_low_power ≡ false)
      × (t ≡ saving)
samsung_power_hint_example =
    samsung_power_hint-power_save (files []) PowerHint.hint_low_power false saving refl

read_state :
    (c : ℕ)
    → sysfs_read
        (files (c ∷ 10 ∷ []))
        (switch_touchscreen (files (c ∷ 10 ∷ [])) false balanced).log
        SysfsPath.touchkey_path
        2
      ≡ some (if c == 10 then [] else c ∷ [], false)
unfolding sysfs_read
read_state c = refl

set_interactive-blocked_example :
    touchkey_texts
      (samsung_power_set_interactive
        (files (48 ∷ 10 ∷ []))
        true
        (samsung_power_set_interactive (files (48 ∷ 10 ∷ [])) false balanced)).log
    ≡ []
set_interactive-blocked_example =
    set_interactive-blocked (files (48 ∷ 10 ∷ [])) balanced (48 ∷ []) refl refl (read_state 48) refl

set_interactive-free_example :
    touchkey_texts
      (samsung_power_set_interactive
        (files (49 ∷ 10 ∷ []))
        true
        (samsung_power_set_interactive (files (49 ∷ 10 ∷ [])) false balanced)).log
    ≡ digit_one ∷ digit_zero ∷ []
set_interactive-free_example =
    set_interactive-free (files (49 ∷ 10 ∷ [])) balanced (49 ∷ []) refl refl (read_state 49) refl
      refl refl
