-- ===== src/Ril.antt =====
-- audio/ril_interface.c: the connection to the RIL daemon. A function returns the C function's
-- result with the handle and the log of calls that it leaves.
pub mod Facts
pub mod Pcms
pub mod Served
pub mod Examples
use android_device_samsung_z.Common.{
  ℕ, Bool, true, false, not, ◌&&◌, ◌||◌, Option, none, some, List, ◌∷◌, ◌==◌, is_some,
  if◌then◌else◌,
}
use android_device_samsung_z.Platform.{
  Platform, Call, SoundType, AudioPath, MuteCondition, Ret, success, minus_one, is_zero,
}

-- struct ril_handle, and whether the statics `_wb_amr_callback` and `_clock_state_callback` are
-- set, with their data.
pub record Ril : Type 0 where
  pub client : Option ℕ
  pub volume_steps_max : ℕ
  pub wb_amr_callback : Bool
  pub clock_state_callback : Bool

abbrev pub unsol_wb_amr_state : ℕ
unsol_wb_amr_state = 11017

abbrev pub unsol_sndmgr_clock_ctrl : ℕ
unsol_sndmgr_clock_ctrl = 11022

abbrev pub volume_steps_default : ℕ
volume_steps_default = 5

-- What `ril_internal_wb_amr_callback` and `ril_internal_pcm_clock_callback` do with a message:
-- return -1, or hand its integer on to the registered callback.
unfoldable pub ril_internal_callback : (registered : Bool) → (datalen value : ℕ) → Ret × Option ℕ
ril_internal_callback registered datalen value =
    if not registered
    then (minus_one, none)
    else if not (datalen == 1)
    then (minus_one, none)
    else (success, some value)

module _ (p : Platform) where
  connect : ℕ → List Call → Ret × List Call
  connect client log =
      let asked = Call.is_connected client ∷ log in
      let tried = Call.connect_rild client ∷ asked in
      if not (is_zero (p.reply log (Call.is_connected client)))
      then (success, asked)
      else if is_zero (p.reply asked (Call.connect_rild client))
      then (success, tried)
      else (minus_one, tried)

  unfoldable pub ril_connect_if_required : Ril → List Call → Ret × List Call
  unfolding connect
  ril_connect_if_required r log = elim r.client [
    | none ↦ (minus_one, log)
    | some client ↦ connect client log
  ]

  -- The body that the five setters share: a failed connection is answered by 0.
  unfoldable pub ril_request : Ril → List Call → Call → Ret × List Call
  ril_request r log call =
      let (rc, log') = ril_connect_if_required r log in
      if not (is_zero rc) then (success, log') else (p.reply log' call, call ∷ log')

  unfoldable pub ril_set_call_volume : Ril → List Call → SoundType → (volume : ℕ) → Ret × List Call
  unfolding ril_request
  ril_set_call_volume r log sound_type volume =
      ril_request r log
        (Call.set_call_volume r.client sound_type (p.scale_volume volume r.volume_steps_max))

  unfoldable pub ril_set_call_audio_path : Ril → List Call → AudioPath → Ret × List Call
  unfolding ril_request
  ril_set_call_audio_path r log path = ril_request r log (Call.set_call_audio_path r.client path)

  unfoldable pub ril_set_call_clock_stop : Ril → List Call → Ret × List Call
  unfolding ril_request
  ril_set_call_clock_stop r log = ril_request r log (Call.set_call_clock_stop r.client)

  unfoldable pub ril_set_mute : Ril → List Call → MuteCondition → Ret × List Call
  unfolding ril_request
  ril_set_mute r log condition = ril_request r log (Call.set_mute r.client condition)

  unfoldable pub ril_set_two_mic_control : Ril → List Call → (report : Bool) → Ret × List Call
  unfolding ril_request
  ril_set_two_mic_control r log report =
      ril_request r log (Call.set_two_mic_control r.client report)

  unfoldable pub ril_open : Ril → List Call → Ret × Ril × List Call
  ril_open r log =
      let opened = record r { client = p.pointer log Call.open_client } in
      let steps = p.volume_steps_property in
      let counted = record opened {
        volume_steps_max = if steps == 0 then volume_steps_default else steps;
      } in
      if is_some opened.client
      then (success, counted, Call.open_client ∷ log)
      else (minus_one, opened, Call.open_client ∷ log)

  close_connected : Ril → ℕ → List Call → Ret × Ril × List Call
  close_connected r client log =
      let cut = Call.disconnect_rild client ∷ log in
      let closed = Call.close_client client ∷ cut in
      if not (is_zero (p.reply log (Call.disconnect_rild client)))
      then (minus_one, r, cut)
      else if not (is_zero (p.reply cut (Call.close_client client)))
      then (minus_one, r, closed)
      else (success, record r { client = none }, closed)

  unfoldable pub ril_close : Ril → List Call → Ret × Ril × List Call
  unfolding close_connected
  ril_close r log = elim r.client [
    | none ↦ (minus_one, r, log)
    | some client ↦ close_connected r client log
  ]

  -- What both registrations do once the static is set. `given` says whether the function and its
  -- data are both not NULL.
  pub register : Ril → List Call → (request : ℕ) → Ret × Ril × List Call
  unfolding ril_close
  register r log request =
      let call = Call.register_handler r.client request in
      let (rc, closed, log') = ril_close r (call ∷ log) in
      if is_zero (p.reply log call) then (success, r, call ∷ log) else (minus_one, closed, log')

  unfoldable pub ril_set_wb_amr_callback : Ril → List Call → (given : Bool) → Ret × Ril × List Call
  unfolding register
  ril_set_wb_amr_callback r log given =
      if not given
      then (minus_one, r, log)
      else register (record r { wb_amr_callback = true }) log unsol_wb_amr_state

  unfoldable pub ril_set_pcm_clock_callback :
      Ril → List Call → (given : Bool) → Ret × Ril × List Call
  unfolding register
  ril_set_pcm_clock_callback r log given =
      if not given
      then (minus_one, r, log)
      else register (record r { clock_state_callback = true }) log unsol_sndmgr_clock_ctrl
