-- ===== src/Power/Interactive.antt =====
-- Suspend and resume: what `samsung_power_set_interactive` writes to the touchkeys.
use android_device_samsung_z.Common.{◌≡◌, Bool, true, false, some, List, [], ◌∷◌, arith}
use android_device_samsung_z.Power.{
  SysfsPath, Write, Chars, Sysfs, PowerModule, digit_zero, digit_one, sysfs_read, sysfs_write,
  set_io_is_busy, is_lit, switch_touchscreen, switch_touchkeys, samsung_power_set_interactive,
  starts_with_zero,
}

-- What was written to the touchkeys, the last text first.
abbrev pub touchkey_texts : List Write → List Chars
touchkey_texts [] = []
touchkey_texts ((SysfsPath.touchkey_path, text) ∷ log) = text ∷ touchkey_texts log
touchkey_texts (_ ∷ log) = touchkey_texts log

module _ (sys : Sysfs) where
  -- What the parts leave alone: the texts, the block and the path.
  record Leaves (s t : PowerModule) : Type 0 where
    pub texts : touchkey_texts t.log ≡ touchkey_texts s.log
    pub blocked : t.touchkeys_blocked ≡ s.touchkeys_blocked
    pub path : t.touchkey_power_path ≡ s.touchkey_power_path

  set_io_is_busy-Leaves : (on : Bool) (m : PowerModule) → Leaves m (set_io_is_busy sys on m)
  unfolding set_io_is_busy
  set_io_is_busy-Leaves on m = ground arith

  switch_touchscreen-Leaves : (on : Bool) (m : PowerModule) → Leaves m (switch_touchscreen sys on m)
  unfolding switch_touchscreen
  switch_touchscreen-Leaves on m = ground arith

  -- The state that is read before a suspend.
  module _ (m : PowerModule) (state : Chars) (dark : is_lit sys m ≡ false)
      (keys : m.touchkey_power_path ≡ true)
      (read : sysfs_read sys (switch_touchscreen sys false m).log SysfsPath.touchkey_path 2
        ≡ some (state, false)) where
    abbrev suspended : PowerModule
    suspended = samsung_power_set_interactive sys false m

    abbrev resumed : PowerModule
    resumed = samsung_power_set_interactive sys true suspended

    suspend_blocked :
        starts_with_zero state ≡ true
        → (touchkey_texts suspended.log ≡ touchkey_texts m.log)
          × (suspended.touchkeys_blocked ≡ true)
          × (suspended.touchkey_power_path ≡ true)
    unfolding samsung_power_set_interactive switch_touchkeys
    suspend_blocked z = ground (
      arith,
      z,
      dark,
      keys,
      read,
      switch_touchscreen-Leaves false m,
      set_io_is_busy-Leaves false
          (record (switch_touchscreen sys false m) { touchkeys_blocked = true }),
    )

    -- Where the screen is dark, the touchkeys are configured and their state reads as 0 when a
    -- suspend comes to it, suspend and resume together write nothing to the touchkeys.
    pub set_interactive-blocked :
        starts_with_zero state ≡ true → touchkey_texts resumed.log ≡ touchkey_texts m.log
    unfolding samsung_power_set_interactive switch_touchkeys
    set_interactive-blocked z =
        let on_screen = switch_touchscreen sys true suspended in
        ground (
          arith,
          suspend_blocked z,
          switch_touchscreen-Leaves true suspended,
          set_io_is_busy-Leaves true on_screen,
        )

    suspend_free :
        starts_with_zero state ≡ false
        → sys.writable (switch_touchscreen sys false m).log SysfsPath.touchkey_path ≡ true
        → (touchkey_texts suspended.log ≡ digit_zero ∷ touchkey_texts m.log)
          × (suspended.touchkeys_blocked ≡ false)
          × (suspended.touchkey_power_path ≡ true)
    unfolding samsung_power_set_interactive switch_touchkeys sysfs_write
    suspend_free z w = ground (
      arith,
      z,
      dark,
      keys,
      read,
      w,
      switch_touchscreen-Leaves false m,
      set_io_is_busy-Leaves false (
          sysfs_write sys SysfsPath.touchkey_path digit_zero
            (record (switch_touchscreen sys false m) { touchkeys_blocked = false })),
    )

    -- Where the screen is dark, the touchkeys are configured, writable and not read as 0 when a
    -- suspend comes to them, suspend and resume write 0 and then 1 to them, and nothing else.
    pub set_interactive-free :
        starts_with_zero state ≡ false
        → sys.writable (switch_touchscreen sys false m).log SysfsPath.touchkey_path ≡ true
        → sys.writable (switch_touchscreen sys true suspended).log SysfsPath.touchkey_path ≡ true
        → touchkey_texts resumed.log ≡ digit_one ∷ digit_zero ∷ touchkey_texts m.log
    unfolding samsung_power_set_interactive switch_touchkeys sysfs_write
    set_interactive-free z w v =
        let on_screen = switch_touchscreen sys true suspended in
        ground (
          arith,
          suspend_free z w,
          v,
          switch_touchscreen-Leaves true suspended,
          set_io_is_busy-Leaves true (sysfs_write sys SysfsPath.touchkey_path digit_one on_screen),
        )
