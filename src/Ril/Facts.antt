-- ===== src/Ril/Facts.antt =====
-- What the functions of audio/ril_interface.c guarantee.
use android_device_samsung_z.Common.{ℕ, ◌≡◌, Bool, true, none, some, List, ◌⊎◌, ◌≢◌, arith}
use android_device_samsung_z.Platform.{Platform, Call, success, minus_one}
use android_device_samsung_z.Ril.{
  Ril, ril_internal_callback, ril_open, ril_close, ril_set_wb_amr_callback, register,
}

-- A message of the RIL that reaches a callback has the length word 1, the callback is registered,
-- and it gets the value of the message; the answer is 0.
pub ril_internal_callback-some :
    (registered : Bool) (datalen value got : ℕ)
    → (ril_internal_callback registered datalen value).1 ≡ some got
    → (registered ≡ true)
      × (datalen ≡ 1)
      × (got ≡ value)
      × ((ril_internal_callback registered datalen value).0 ≡ success)
unfolding ril_internal_callback
ril_internal_callback-some registered datalen value got h = ground arith

module _ (p : Platform) (r : Ril) (log : List Call) where
  -- `ril_open` answers 0 with a client and a number of volume steps that is not 0, or -1 without a
  -- client.
  pub ril_open_lem :
      let (rc, t, log') = ril_open p r log in
      ((rc ≡ success) × (t.client ≢ none) × (t.volume_steps_max ≢ 0))
      ⊎ ((rc ≡ minus_one) × (t.client ≡ none))
  unfolding ril_open
  ril_open_lem = ground arith

  -- `ril_close` answers 0 with the client given up, which there was, or -1 with the handle as it
  -- was.
  pub ril_close_lem :
      let (rc, t, log') = ril_close p r log in
      ((rc ≡ success) × (r.client ≢ none) × (t.client ≡ none)) ⊎ ((rc ≡ minus_one) × (t ≡ r))
  unfolding ril_close
  ril_close_lem = ground arith

  -- A registration of the wideband callback answers 0, for a function and data that are not NULL,
  -- with the callback set and the client as it was; or it answers -1.
  pub ril_set_wb_amr_callback_lem :
      (given : Bool)
      → let (rc, t, log') = ril_set_wb_amr_callback p r log given in
        ((rc ≡ success) × (given ≡ true) × (t.wb_amr_callback ≡ true) × (t.client ≡ r.client))
        ⊎ (rc ≡ minus_one)
  unfolding ril_set_wb_amr_callback register
  ril_set_wb_amr_callback_lem given = ground arith
