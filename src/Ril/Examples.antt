-- ===== src/Ril/Examples.antt =====
-- The theorems on the RIL connection at an open handle.
use android_device_samsung_z.Common.{◌+◌, ◌≡◌, refl, true, false, some, List, [], ◌∷◌}
use android_device_samsung_z.Platform.{aosp}
use android_device_samsung_z.Ril.{Ril}
use android_device_samsung_z.Ril.Served.{
  Request, served, serve_all, made, refused, serve_all-served,
}

abbrev opened : Ril
opened = record {
  client = some 1;
  volume_steps_max = 5;
  wb_amr_callback = false;
  clock_state_callback = false;
}

abbrev requests : List Request
requests = Request.call_clock_stop ∷ Request.two_mic_control true ∷ []

serve_all_example :
    (served aosp (serve_all aosp opened requests []) ≡ true)
    × (made (serve_all aosp opened requests []) + refused aosp (serve_all aosp opened requests [])
        ≡ 2)
serve_all_example = serve_all-served aosp opened 1 refl requests [] refl
