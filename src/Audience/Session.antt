-- ===== src/Audience/Session.antt =====
-- The order of the writes that start a session of the voice processor.
use android_device_samsung_z.Common.{ℕ, ◌≡◌, Bool, List, [], ◌∷◌, arith, if◌then◌else◌}
use android_device_samsung_z.Platform.{Platform, Call, Ret, success, is_zero}
use android_device_samsung_z.Audience.{
  es_device_to_route, es_start_voice_session, sysfs_path_preset, sysfs_path_extravolume,
  sysfs_path_veq,
}

-- The writes that follow the route's: no extra volume, and the equalizer at 4.
abbrev pub extra_volume : Call
extra_volume = Call.write_int sysfs_path_extravolume 0

abbrev pub equalizer : Call
equalizer = Call.write_int sysfs_path_veq 4

-- Calls in turn, up to the first that is not answered by 0, whose answer is returned.
abbrev pub run_until_error : Platform → List Call → List Call → Ret × List Call
run_until_error p [] log = (success, log)
run_until_error p (call ∷ calls) log =
    let rest = run_until_error p calls (call ∷ log) in
    if is_zero (p.reply log call) then rest else (p.reply log call, call ∷ log)

module _ (p : Platform) (devices wb_amr_type : ℕ) (bluetooth_wb : Bool) where
  -- The write of the route.
  abbrev pub preset : Call
  preset = Call.write_int sysfs_path_preset (es_device_to_route p devices wb_amr_type bluetooth_wb)

  -- The start of a voice processor session has the answer and the log of running the writes of the
  -- route, the extra volume and the equalizer in this order up to the first that is not answered by
  -- 0, whose answer is returned.
  pub es_start_voice_session_lem :
      (log : List Call)
      → es_start_voice_session p log devices wb_amr_type bluetooth_wb
        ≡ run_until_error p (preset ∷ extra_volume ∷ equalizer ∷ []) log
  unfolding es_start_voice_session
  es_start_voice_session_lem log = ground arith
