-- ===== src/Audience.antt =====
-- audio/audience.c, audio/audience-routes.h: the Audience earSmart voice processor, driven by
-- integers that are written to three sysfs files.
pub mod Session
pub mod Examples
use android_device_samsung_z.Common.{ℕ, Bool, List, ◌∷◌, ◌||◌, not, leb, has, if◌then◌else◌}
use android_device_samsung_z.Platform.{Platform, Call, Ret, success, is_zero}

-- SYSFS_PATH_PRESET, SYSFS_PATH_VEQ and SYSFS_PATH_EXTRAVOLUME
abbrev pub sysfs_path_preset : ℕ
sysfs_path_preset = 0

abbrev pub sysfs_path_veq : ℕ
sysfs_path_veq = 1

abbrev pub sysfs_path_extravolume : ℕ
sysfs_path_extravolume = 2

abbrev pub call_hs_nb : ℕ
call_hs_nb = 0

abbrev pub call_ft_nb : ℕ
call_ft_nb = 1

abbrev pub call_ct_nb : ℕ
call_ct_nb = 2

abbrev pub call_bt_nb : ℕ
call_bt_nb = 10

abbrev pub call_bt_wb : ℕ
call_bt_wb = 20

abbrev pub call_hs_wb : ℕ
call_hs_wb = 21

abbrev pub call_ft_wb : ℕ
call_ft_wb = 22

abbrev pub call_ct_wb : ℕ
call_ct_wb = 23

abbrev pub audience_sleep : ℕ
audience_sleep = 40

module _ (p : Platform) where
  -- `write_int`: opening and writing are one call, answered by 0 or an `errno`.
  unfoldable pub write_int : List Call → (path value : ℕ) → Ret × List Call
  write_int log path value =
      (p.reply log (Call.write_int path value), Call.write_int path value ∷ log)

  -- The route by the devices of the primary output.
  unfoldable pub es_device_to_route : (devices wb_amr_type : ℕ) → (bluetooth_wb : Bool) → ℕ
  es_device_to_route devices wb_amr_type bluetooth_wb =
      if has devices p.out_earpiece
      then if leb 1 wb_amr_type then call_ct_wb else call_ct_nb
      else if has devices p.out_speaker
      then if leb 1 wb_amr_type then call_ft_wb else call_ft_nb
      else if has devices p.out_wired_headset || has devices p.out_wired_headphone
      then if leb 1 wb_amr_type then call_hs_wb else call_hs_nb
      else if has devices p.out_all_sco
          || (has devices p.out_bluetooth_sco_headset || has devices p.out_bluetooth_sco_carkit)
      then if bluetooth_wb then call_bt_wb else call_bt_nb
      else if leb 1 wb_amr_type
      then call_ct_wb
      else call_ct_nb

  -- The three writes; the first that fails ends the session's start.
  unfoldable pub es_start_voice_session :
      List Call → (devices wb_amr_type : ℕ) → (bluetooth_wb : Bool) → Ret × List Call
  unfolding write_int
  es_start_voice_session log devices wb_amr_type bluetooth_wb =
      let route = es_device_to_route devices wb_amr_type bluetooth_wb in
      let (routed, log) = write_int log sysfs_path_preset route in
      if not (is_zero routed)
      then (routed, log)
      else let (louder, log) = write_int log sysfs_path_extravolume 0 in
        if not (is_zero louder) then (louder, log) else write_int log sysfs_path_veq 4

  unfoldable pub es_stop_voice_session : List Call → List Call
  unfolding write_int
  es_stop_voice_session log = (write_int log sysfs_path_preset audience_sleep).1
