-- ===== src/Init/Values.antt =====
-- The values that a branch of `vendor_load_properties` of libinit/init_sec.cpp gives to the
-- properties, as a list.
use android_device_samsung_z.Common.{
  ◌≡◌, ◌⊎◌, refl, inl, inr, Bool, Bool-cases, true, false, List, [], ◌∷◌, ◌++◌, if◌then◌else◌,
}
use Prim.Native.String.{String}
use text.Mathlib.Text.{◌==◌}
use android_device_samsung_z.Init.Search.{Variant}

-- The properties that a branch writes, with their values, in order.
abbrev pub dual_sim_values : Bool → List (String × String)
dual_sim_values true =
    ("ro.multisim.simslotcount", "2")
    ∷ ("persist.radio.multisim.config", "dsds")
    ∷ ("rild.libpath2", "/vendor/lib/libsec-ril-dsds.so")
    ∷ ("ro.telephony.ril.config", "simactivation")
    ∷ []
dual_sim_values false = []

abbrev pub cdma_values : Bool → List (String × String)
cdma_values true =
    ("persist.radio.snapshot_enabled", "1")
    ∷ ("persist.radio.snapshot_timer", "22")
    ∷ ("persist.eons.enabled", "false")
    ∷ ("persist.rmnet.mux", "enabled")
    ∷ ("persist.cne.feature", "0")
    ∷ ("persist.radio.lte_vrte_ltd", "1")
    ∷ ("persist.security.ams.enforcing", "1")
    ∷ ("ro.telephony.default_cdma_sub", "1")
    ∷ ("ril.subscription.types", "NV,RUIM")
    ∷ ("telephony.lteOnGsmDevice", "0")
    ∷ ("telephony.lteOnCdmaDevice", "1")
    ∷ ("persist.gps.qc_nlp_in_use", "1")
    ∷ ("persist.loc.nlp_name", "com.qualcomm.location")
    ∷ ("ro.gps.agps_provider", "1")
    ∷ ("ro.config.combined_signal", "true")
    ∷ ("ro.config.multimode_cdma", "1")
    ∷ ("persist.radio.use_se_table_only", "1")
    ∷ ("ro.telephony.default_network", "10")
    ∷ []
cdma_values false =
    ("ro.telephony.default_network", "9")
    ∷ ("telephony.lteOnGsmDevice", "1")
    ∷ ("telephony.lteOnCdmaDevice", "0")
    ∷ []

abbrev pub edge_values : (s7e_battery status : Bool) → List (String × String)
edge_values true status = ("ro.power_profile.override", "power_profile_s6e") ∷ []
edge_values false true = ("ro.power_profile.override", "power_profile_s7e_bat") ∷ []
edge_values false false = []

abbrev pub build_values : Variant → List (String × String)
build_values v =
    ("ro.build.fingerprint", v.fingerprint)
    ∷ ("ro.vendor.build.fingerprint", v.fingerprint)
    ∷ ("ro.bootimage.build.fingerprint", v.bootimage_fingerprint)
    ∷ ("ro.build.description", v.description)
    ∷ ("ro.product.model", v.model)
    ∷ ("ro.vendor.product.model", v.model)
    ∷ ("ro.product.device", v.device)
    ∷ ("ro.vendor.product.device", v.device)
    ∷ ("ro.product.name", v.product)
    ∷ ("audio_hal.uses.audience", v.uses_audience)
    ∷ ("rild.libpath", v.libpath)
    ∷ []

unfoldable pub values : Variant → (s7e_battery : Bool) → List (String × String)
values v s7e_battery =
    build_values v
    ++ (edge_values s7e_battery v.edge ++ (dual_sim_values v.dual_sim ++ cdma_values v.cdma))

-- The last value that a list gives to a property, or the one it has.
unfoldable pub last_value : String → List (String × String) → String → String
last_value j [] present = present
last_value j ((k, v) ∷ kvs) present = last_value j kvs (if k == j then v else present)

pub last_value-append :
    (j : String) (xs ys : List (String × String)) (present : String)
    → last_value j (xs ++ ys) present ≡ last_value j ys (last_value j xs present)
unfolding last_value
last_value-append j [] ys present = refl
last_value-append j ((k, v) ∷ xs) ys present =
    last_value-append j xs ys (if k == j then v else present)

pub last_value_again :
    (j : String) (kvs : List (String × String)) (a b : String)
    → (last_value j kvs a ≡ last_value j kvs b)
      ⊎ ((last_value j kvs a ≡ a) × (last_value j kvs b ≡ b))
unfolding last_value
last_value_again j [] a b = inr (refl, refl)
last_value_again j ((k, v) ∷ kvs) a b = elim (Bool-cases (k == j)) [
  | inl here ↦ inl (rw (here, last_value) refl)
  | inr other ↦ rw (other, last_value) (last_value_again j kvs a b)
]

-- What follows the build's values in a branch leaves the names of the product alone.
pub tail_reads :
    (battery status dual cdma : Bool) (a b c d e f g h i : String)
    → let tail = edge_values battery status ++ (dual_sim_values dual ++ cdma_values cdma) in
      (last_value "ro.product.model" tail a ≡ a)
      × (last_value "ro.vendor.product.model" tail b ≡ b)
      × (last_value "ro.product.device" tail c ≡ c)
      × (last_value "ro.vendor.product.device" tail d ≡ d)
      × (last_value "ro.build.fingerprint" tail e ≡ e)
      × (last_value "ro.vendor.build.fingerprint" tail f ≡ f)
      × (last_value "telephony.lteOnCdmaDevice" tail g ≡ (if cdma then "1" else "0"))
      × (last_value "telephony.lteOnGsmDevice" tail h ≡ (if cdma then "0" else "1"))
      × (last_value "ro.telephony.default_network" tail i ≡ (if cdma then "10" else "9"))
unfolding last_value
tail_reads true status true true a b c d e f g h i =
    (refl, refl, refl, refl, refl, refl, refl, refl, refl)
tail_reads true status true false a b c d e f g h i =
    (refl, refl, refl, refl, refl, refl, refl, refl, refl)
tail_reads true status false true a b c d e f g h i =
    (refl, refl, refl, refl, refl, refl, refl, refl, refl)
tail_reads true status false false a b c d e f g h i =
    (refl, refl, refl, refl, refl, refl, refl, refl, refl)
tail_reads false true true true a b c d e f g h i =
    (refl, refl, refl, refl, refl, refl, refl, refl, refl)
tail_reads false true true false a b c d e f g h i =
    (refl, refl, refl, refl, refl, refl, refl, refl, refl)
tail_reads false true false true a b c d e f g h i =
    (refl, refl, refl, refl, refl, refl, refl, refl, refl)
tail_reads false true false false a b c d e f g h i =
    (refl, refl, refl, refl, refl, refl, refl, refl, refl)
tail_reads false false true true a b c d e f g h i =
    (refl, refl, refl, refl, refl, refl, refl, refl, refl)
tail_reads false false true false a b c d e f g h i =
    (refl, refl, refl, refl, refl, refl, refl, refl, refl)
tail_reads false false false true a b c d e f g h i =
    (refl, refl, refl, refl, refl, refl, refl, refl, refl)
tail_reads false false false false a b c d e f g h i =
    (refl, refl, refl, refl, refl, refl, refl, refl, refl)

-- No branch writes what the choice of a branch reads.
pub tail_ignores :
    (battery status dual cdma : Bool) (a b c : String)
    → let tail = edge_values battery status ++ (dual_sim_values dual ++ cdma_values cdma) in
      (last_value "ro.board.platform" tail a ≡ a)
      × (last_value "ro.bootloader" tail b ≡ b)
      × (last_value "uses.s7e_battery" tail c ≡ c)
unfolding last_value
tail_ignores true status true true a b c = (refl, refl, refl)
tail_ignores true status true false a b c = (refl, refl, refl)
tail_ignores true status false true a b c = (refl, refl, refl)
tail_ignores true status false false a b c = (refl, refl, refl)
tail_ignores false true true true a b c = (refl, refl, refl)
tail_ignores false true true false a b c = (refl, refl, refl)
tail_ignores false true false true a b c = (refl, refl, refl)
tail_ignores false true false false a b c = (refl, refl, refl)
tail_ignores false false true true a b c = (refl, refl, refl)
tail_ignores false false true false a b c = (refl, refl, refl)
tail_ignores false false false true a b c = (refl, refl, refl)
tail_ignores false false false false a b c = (refl, refl, refl)
