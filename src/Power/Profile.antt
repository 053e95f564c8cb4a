-- ===== src/Power/Profile.antt =====
-- The power profiles: what power save does to the frequencies, and which hints it lets through.
use android_device_samsung_z.Common.{
  take, ℕ, suc, zero, ◌≤◌, ◌≡◌, refl, ◌⊎◌, Bool, true, false, some, List, [], ◌∷◌, ◌++◌, ◌==◌,
  length, All, arith, not,
}
use android_device_samsung_z.Power.{
  SysfsPath, Sysfs, PowerProfile, PowerHint, PowerModule, Chars, newline, terminate, is_empty,
  cpu0_power_save_freq, cpu4_power_save_freq, sysfs_read, read_freqs, set_power_profile,
  samsung_power_hint, switch_touchscreen,
}

-- A line of text without its newline.
abbrev pub IsLine : Chars → Type 0
IsLine cs = All (λ c. (c == newline) ≡ false) cs

take-short : (n : ℕ) (cs : Chars) → length cs ≤ n → take n cs ≡ cs
take-short zero [] h = refl
take-short zero (c ∷ cs) h = absurd (omega arith)
take-short (suc n) [] h = refl
take-short (suc n) (c ∷ cs) h = ground (arith, take-short n cs)

terminate-line : (cs : Chars) → IsLine cs → terminate (cs ++ newline ∷ []) ≡ cs
terminate-line [] h = refl
terminate-line (c ∷ []) h = refl
terminate-line (c ∷ d ∷ cs) h = ground (arith, terminate-line (d ∷ cs) h.1)

newline-last : (cs : Chars) → is_empty (cs ++ newline ∷ []) ≡ false
newline-last [] = refl
newline-last (c ∷ cs) = refl

-- The hint that ends power save: LOW_POWER without data.
abbrev pub ends_save : PowerHint → (given : Bool) → Bool
ends_save PowerHint.hint_low_power given = not given
ends_save _ given = false

abbrev pub is_touch : PowerHint → Bool
is_touch PowerHint.hint_disable_touch = true
is_touch _ = false

module _ (sys : Sysfs) where
  -- A short line that is read into a buffer is read whole, without its newline.
  sysfs_read-line :
      (m : PowerModule) (path : SysfsPath) (cs : Chars)
      → IsLine cs
      → length (cs ++ newline ∷ []) ≤ 9
      → sys.text m.log path ≡ some (some (cs ++ newline ∷ []))
      → sysfs_read sys m.log path 10 ≡ some (cs, false)
  unfolding sysfs_read
  sysfs_read-line m path cs line short text = ground (
    arith,
    text,
    take-short 9 (cs ++ newline ∷ []) short,
    terminate-line cs line,
    newline-last cs,
  )

  read_freqs-lines :
      (m : PowerModule) (cpu0 cpu4 : Chars)
      → sysfs_read sys m.log SysfsPath.cpu0_max_freq_path 10 ≡ some (cpu0, false)
      → sysfs_read sys m.log SysfsPath.cpu4_max_freq_path 10 ≡ some (cpu4, false)
      → read_freqs sys m ≡ record m { cpu0_max_freq = cpu0; cpu4_max_freq = cpu4 }
  unfolding read_freqs
  read_freqs-lines m cpu0 cpu4 r0 r4 = ground (arith, r0, r4)

  -- From the balanced profile, with both frequency files writable and holding a line of at most 9
  -- characters with its newline: power save writes its two limits, and the balanced profile after
  -- it writes the two lines that the files held before, without the newline.
  pub set_power_profile-restores :
      (m : PowerModule) (cpu0 cpu4 : Chars)
      → m.current_power_profile ≡ PowerProfile.profile_balanced
      → (((log : List (SysfsPath × Chars)) → sys.writable log SysfsPath.cpu0_max_freq_path ≡ true))
      → (((log : List (SysfsPath × Chars)) → sys.writable log SysfsPath.cpu4_max_freq_path ≡ true))
      → IsLine cpu0
      → IsLine cpu4
      → length (cpu0 ++ newline ∷ []) ≤ 9
      → length (cpu4 ++ newline ∷ []) ≤ 9
      → sys.text m.log SysfsPath.cpu0_max_freq_path ≡ some (some (cpu0 ++ newline ∷ []))
      → sys.text m.log SysfsPath.cpu4_max_freq_path ≡ some (some (cpu4 ++ newline ∷ []))
      → let saving = set_power_profile sys PowerProfile.profile_power_save m in
        let t = set_power_profile sys PowerProfile.profile_balanced saving in
        (t.current_power_profile ≡ PowerProfile.profile_balanced)
        × (saving.log
            ≡ (SysfsPath.cpu4_max_freq_path, cpu4_power_save_freq)
              ∷ (SysfsPath.cpu0_max_freq_path, cpu0_power_save_freq)
              ∷ m.log)
        × (t.log
            ≡ (SysfsPath.cpu4_max_freq_path, cpu4)
              ∷ (SysfsPath.cpu0_max_freq_path, cpu0)
              ∷ saving.log)
  unfolding set_power_profile
  set_power_profile-restores m cpu0 cpu4 e w0 w4 l0 l4 s0 s4 t0 t4 =
      let r0 = sysfs_read-line m SysfsPath.cpu0_max_freq_path cpu0 l0 s0 t0 in
      let r4 = sysfs_read-line m SysfsPath.cpu4_max_freq_path cpu4 l4 s4 t4 in
      let read = read_freqs-lines m cpu0 cpu4 r0 r4 in
      let l1 = (SysfsPath.cpu0_max_freq_path, cpu0_power_save_freq) ∷ m.log in
      let l2 = (SysfsPath.cpu4_max_freq_path, cpu4_power_save_freq) ∷ l1 in
      let l3 = (SysfsPath.cpu0_max_freq_path, cpu0) ∷ l2 in
      ground (arith, e, read, w0 m.log, w4 l1, w0 l2, w4 l3)

  -- In power save, LOW_POWER without data sets the balanced profile; DISABLE_TOUCH switches the
  -- touchscreen as its data says and stays in power save; and any other hint changes nothing.
  pub samsung_power_hint-power_save :
      (hint : PowerHint) (given : Bool) (m : PowerModule)
      → m.current_power_profile ≡ PowerProfile.profile_power_save
      → let t = samsung_power_hint sys hint given m in
        ((ends_save hint given ≡ true)
          × (t.current_power_profile ≡ PowerProfile.profile_balanced)
          × (t ≡ set_power_profile sys PowerProfile.profile_balanced m))
        ⊎ ((is_touch hint ≡ true)
            × (t.current_power_profile ≡ PowerProfile.profile_power_save)
            × (t ≡ switch_touchscreen sys (not given) m))
        ⊎ (ends_save hint given ≡ false) × (is_touch hint ≡ false) × (t ≡ m)
  unfolding samsung_power_hint set_power_profile switch_touchscreen
  samsung_power_hint-power_save hint given m h = ground (arith, h)
