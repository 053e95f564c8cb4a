-- ===== src/Power.antt =====
-- power/power.c: the power HAL, over the sysfs files that it reads and writes.
pub mod Profile
pub mod Examples
pub mod Interactive
use android_device_samsung_z.Common.{
  take, ℕ, suc, zero, ◌-◌, Bool, true, false, not, ◌&&◌, Option, none, some, List, [], ◌∷◌, ◌==◌,
  ltb, if◌then◌else◌,
}

-- The files, by the macros or the literals that name them.
pub data SysfsPath : Type 0 where
  cpu0_max_freq_path cpu4_max_freq_path cpu0_io_is_busy_path cpu4_io_is_busy_path : SysfsPath
  boostpulse_path boostpulse2_path boost2_path boostpulse2_dur_path : SysfsPath
  touchscreen_path touchkey_path doubletap2wake_path : SysfsPath

-- A C string without its NUL: the codes of its characters.
abbrev pub Chars : Type 0
Chars = List ℕ

-- A write that went through: the file and the text.
abbrev pub Write : Type 0
Write = SysfsPath × Chars

-- What the code meets outside: the files after the writes so far, the brightness of the panel, of
-- which `none` is a negative answer, and the build. `text` is `none` where the file cannot be
-- opened, `some none` where it cannot be read; no text has a NUL.
pub record Sysfs : Type 0 where
  pub writable : List Write → SysfsPath → Bool
  pub text : List Write → SysfsPath → Option (Option Chars)
  pub get_cur_panel_brightness : List Write → Option ℕ
  pub built_on_macs18max : Bool  -- ro.build.user and ro.build.host
  pub tap_to_wake_node : Bool  -- TARGET_TAP_TO_WAKE_NODE

-- enum power_profile_e
pub data PowerProfile : Type 0 where
  profile_power_save profile_balanced : PowerProfile

abbrev pub same_profile : PowerProfile → PowerProfile → Bool
same_profile PowerProfile.profile_power_save PowerProfile.profile_power_save = true
same_profile PowerProfile.profile_balanced PowerProfile.profile_balanced = true
same_profile _ _ = false

-- power_hint_t
pub data PowerHint : Type 0 where
  hint_vsync hint_interaction hint_low_power hint_launch hint_disable_touch : PowerHint
  hint_other : ℕ → PowerHint

-- feature_t
pub data Feature : Type 0 where
  double_tap_to_wake : Feature
  feature_other : ℕ → Feature

-- struct samsung_power_module with the statics `current_power_profile` and `touchkeys_blocked`,
-- and the log of writes. A descriptor is whether it is open, a path whether it is set. `fault` is
-- set by an access outside an array.
pub record PowerModule : Type 0 where
  pub boostpulse_fd : Bool
  pub boostpulse2_fd : Bool
  pub boost2_fd : Bool
  pub cpu0_max_freq : Chars
  pub cpu4_max_freq : Chars
  pub touchscreen_power_path : Bool
  pub touchkey_power_path : Bool
  pub low_power_mode : Bool
  pub current_power_profile : PowerProfile
  pub touchkeys_blocked : Bool
  pub log : List Write
  pub fault : Bool

abbrev pub newline : ℕ
newline = 10

abbrev pub digit_zero : Chars
digit_zero = 48 ∷ []

abbrev pub digit_one : Chars
digit_one = 49 ∷ []

-- "1296000", "800000" and "3000000"
abbrev pub cpu0_power_save_freq : Chars
cpu0_power_save_freq = 49 ∷ 50 ∷ 57 ∷ 54 ∷ 48 ∷ 48 ∷ 48 ∷ []

abbrev pub cpu4_power_save_freq : Chars
cpu4_power_save_freq = 56 ∷ 48 ∷ 48 ∷ 48 ∷ 48 ∷ 48 ∷ []

abbrev pub boostpulse2_duration : Chars
boostpulse2_duration = 51 ∷ 48 ∷ 48 ∷ 48 ∷ 48 ∷ 48 ∷ 48 ∷ []

-- The string that `sysfs_read` leaves: a newline at the end is dropped.
abbrev pub terminate : Chars → Chars
terminate [] = []
terminate (c ∷ []) = if c == newline then [] else c ∷ []
terminate (c ∷ d ∷ cs) = c ∷ terminate (d ∷ cs)

abbrev pub is_empty : Chars → Bool
is_empty [] = true
is_empty (c ∷ cs) = false

-- The text that switches a file on or off.
abbrev pub ascii : Bool → Chars
ascii on = if on then digit_one else digit_zero

abbrev pub starts_with_zero : Chars → Bool
starts_with_zero [] = false
starts_with_zero (c ∷ cs) = c == 48

module _ (sys : Sysfs) where
  -- `sysfs_read(path, s, num_bytes)`: what is left in `s`, or -1, with which `s` is as it was.
  -- Where nothing is delivered, the code looks at `s[-1]`.
  unfoldable pub sysfs_read : List Write → SysfsPath → (num_bytes : ℕ) → Option (Chars × Bool)
  sysfs_read log path num_bytes = elim (sys.text log path) [
    | none ↦ none
    | some none ↦ none
    | some (some text) ↦
        let delivered = take (num_bytes - 1) text in some (terminate delivered, is_empty delivered)
  ]

  unfoldable pub sysfs_write : SysfsPath → Chars → PowerModule → PowerModule
  sysfs_write path text m =
      if sys.writable m.log path then record m { log = (path, text) ∷ m.log } else m

  unfoldable pub boostpulse_open : PowerModule → PowerModule
  boostpulse_open m = record m { boostpulse_fd = sys.writable m.log SysfsPath.boostpulse_path }

  unfoldable pub boostpulse2_open : PowerModule → PowerModule
  boostpulse2_open m = record m {
    boostpulse2_fd = sys.built_on_macs18max && sys.writable m.log SysfsPath.boostpulse2_path;
  }

  unfoldable pub boost2_open : PowerModule → PowerModule
  boost2_open m = record m {
    boost2_fd = sys.built_on_macs18max && sys.writable m.log SysfsPath.boost2_path;
  }

  -- Both readings into the buffers of 10 bytes.
  unfoldable pub read_freqs : PowerModule → PowerModule
  read_freqs m =
      let m : PowerModule = elim (sysfs_read m.log SysfsPath.cpu0_max_freq_path 10) [
        | none ↦ m
        | some (text, outside) ↦
            if outside
            then record m { cpu0_max_freq = text; fault = true }
            else record m { cpu0_max_freq = text }
      ] in
      elim (sysfs_read m.log SysfsPath.cpu4_max_freq_path 10) [
        | none ↦ m
        | some (text, outside) ↦
            if outside
            then record m { cpu4_max_freq = text; fault = true }
            else record m { cpu4_max_freq = text }
      ]

  unfoldable pub set_power_profile : PowerProfile → PowerModule → PowerModule
  unfolding sysfs_write
  set_power_profile PowerProfile.profile_power_save m =
      if same_profile m.current_power_profile PowerProfile.profile_power_save
      then m
      else let m = sysfs_write SysfsPath.cpu0_max_freq_path cpu0_power_save_freq (read_freqs m) in
        let m = sysfs_write SysfsPath.cpu4_max_freq_path cpu4_power_save_freq m in
        record m { current_power_profile = PowerProfile.profile_power_save }
  set_power_profile PowerProfile.profile_balanced m =
      if same_profile m.current_power_profile PowerProfile.profile_balanced
      then m
      else let m = sysfs_write SysfsPath.cpu0_max_freq_path m.cpu0_max_freq m in
        let m = sysfs_write SysfsPath.cpu4_max_freq_path m.cpu4_max_freq m in
        record m { current_power_profile = PowerProfile.profile_balanced }

  unfoldable pub init_cpufreqs : PowerModule → PowerModule
  init_cpufreqs m = sysfs_write SysfsPath.boostpulse2_dur_path boostpulse2_duration (read_freqs m)

  unfoldable pub samsung_power_init : PowerModule → PowerModule
  unfolding init_cpufreqs boostpulse_open boostpulse2_open boost2_open
  samsung_power_init m =
      let m = init_cpufreqs (record m { low_power_mode = false }) in
      let m = boost2_open (boostpulse2_open (boostpulse_open m)) in
      record m { touchscreen_power_path = true; touchkey_power_path = true }

  -- The label `out` of `samsung_power_set_interactive`.
  unfoldable pub set_io_is_busy : (on : Bool) → PowerModule → PowerModule
  unfolding sysfs_write
  set_io_is_busy on m =
      sysfs_write SysfsPath.cpu4_io_is_busy_path (ascii on)
        (sysfs_write SysfsPath.cpu0_io_is_busy_path (ascii on) m)

  unfoldable pub switch_touchscreen : (on : Bool) → PowerModule → PowerModule
  unfolding sysfs_write
  switch_touchscreen on m =
      if m.touchscreen_power_path then sysfs_write SysfsPath.touchscreen_path (ascii on) m else m

  -- The touchkeys: before they are disabled, their state says whether someone else did so.
  unfoldable pub switch_touchkeys : (on : Bool) → PowerModule → PowerModule
  switch_touchkeys true m =
      if m.touchkeys_blocked then m else sysfs_write SysfsPath.touchkey_path digit_one m
  switch_touchkeys false m = elim (sysfs_read m.log SysfsPath.touchkey_path 2) [
    | none ↦ m
    | some (state, outside) ↦
        let m = if outside then record m { fault = true } else m in
        if starts_with_zero state
        then record m { touchkeys_blocked = true }
        else sysfs_write SysfsPath.touchkey_path digit_zero (record m { touchkeys_blocked = false })
  ]

  -- Whether the screen is still on.
  abbrev pub is_lit : PowerModule → Bool
  is_lit m = elim (sys.get_cur_panel_brightness m.log) [ none ↦ false | some n ↦ ltb 0 n ]

  unfoldable pub samsung_power_set_interactive : (on : Bool) → PowerModule → PowerModule
  samsung_power_set_interactive on m =
      let switched = switch_touchscreen on m in
      if not on && is_lit m
      then set_io_is_busy on m
      else if m.touchkey_power_path
      then set_io_is_busy on (switch_touchkeys on switched)
      else set_io_is_busy on switched

  -- The write of one byte to a descriptor that is open.
  abbrev pub send : (fd : Bool) → SysfsPath → Chars → PowerModule → PowerModule
  send fd path text m = if fd then record m { log = (path, text) ∷ m.log } else m

  abbrev pub bails_out : PowerModule → PowerHint → Bool
  bails_out m PowerHint.hint_low_power = false
  bails_out m PowerHint.hint_disable_touch = false
  bails_out m _ = same_profile m.current_power_profile PowerProfile.profile_power_save

  -- `given` is whether `data` is not NULL.
  unfoldable pub act_on_hint : PowerHint → (given : Bool) → PowerModule → PowerModule
  unfolding set_power_profile switch_touchscreen
  act_on_hint PowerHint.hint_vsync given m = send m.boost2_fd SysfsPath.boost2_path digit_zero m
  act_on_hint PowerHint.hint_interaction given m =
      send m.boostpulse2_fd SysfsPath.boostpulse2_path digit_one m
  act_on_hint PowerHint.hint_low_power given m =
      set_power_profile
        (if given then PowerProfile.profile_power_save else PowerProfile.profile_balanced) m
  act_on_hint PowerHint.hint_launch given m =
      send m.boostpulse_fd SysfsPath.boostpulse_path digit_one m
  act_on_hint PowerHint.hint_disable_touch given m = switch_touchscreen (not given) m
  act_on_hint (PowerHint.hint_other n) given m = m

  unfoldable pub samsung_power_hint : PowerHint → (given : Bool) → PowerModule → PowerModule
  unfolding act_on_hint
  samsung_power_hint hint given m = if bails_out m hint then m else act_on_hint hint given m

  unfoldable pub samsung_set_feature : Feature → (state : Bool) → PowerModule → PowerModule
  samsung_set_feature Feature.double_tap_to_wake state m =
      if sys.tap_to_wake_node then sysfs_write SysfsPath.doubletap2wake_path (ascii state) m else m
  samsung_set_feature (Feature.feature_other n) state m = m
