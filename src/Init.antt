-- ===== src/Init.antt =====
-- libinit/init_sec.cpp: the system properties that init sets by the bootloader's name. The property
-- service is a parameter.
pub mod Search
pub mod Flat
pub mod Carriers
pub mod Edge
pub mod Table
pub mod Choice
pub mod Values
pub mod Result
pub mod Examples
use android_device_samsung_z.Common.{Bool, Option, none, some, List, not, if◌then◌else◌}
use android_device_samsung_z.Init.Search.{Variant, find_variant}
use android_device_samsung_z.Init.Table.{variants}
use Prim.Native.String.{String}
use text.Mathlib.Text.{◌==◌}

-- The calls of the property service: `GetProperty` with an empty default, and whether
-- `__system_property_find` answers a property, which `__system_property_update` then writes.
pub record PropertyArea {ℓ} (S : Type ℓ) : Type ℓ where
  pub get_property : S → String → String
  pub is_found : S → String → Bool
  pub property_update : S → (prop value : String) → S
  pub property_add : S → (prop value : String) → S

module _ {ℓ} {S : Type ℓ} (area : PropertyArea S) where
  unfoldable pub property_override : (prop value : String) → S → S
  property_override prop value s =
      if area.is_found s prop
      then area.property_update s prop value
      else area.property_add s prop value

  unfoldable pub property_override_dual : (system_prop vendor_prop value : String) → S → S
  property_override_dual system_prop vendor_prop value s =
      property_override vendor_prop value (property_override system_prop value s)

  unfoldable pub is_dual_sim_device : S → S
  is_dual_sim_device s =
      let s = property_override "ro.multisim.simslotcount" "2" s in
      let s = property_override "persist.radio.multisim.config" "dsds" s in
      let s = property_override "rild.libpath2" "/vendor/lib/libsec-ril-dsds.so" s in
      property_override "ro.telephony.ril.config" "simactivation" s

  unfoldable pub is_cdma_device : (cellular_type : Bool) → S → S
  is_cdma_device cellular_type s =
      let c = property_override "persist.radio.snapshot_enabled" "1" s in
      let c = property_override "persist.radio.snapshot_timer" "22" c in
      let c = property_override "persist.eons.enabled" "false" c in
      let c = property_override "persist.rmnet.mux" "enabled" c in
      let c = property_override "persist.cne.feature" "0" c in
      let c = property_override "persist.radio.lte_vrte_ltd" "1" c in
      let c = property_override "persist.security.ams.enforcing" "1" c in
      let c = property_override "ro.telephony.default_cdma_sub" "1" c in
      let c = property_override "ril.subscription.types" "NV,RUIM" c in
      let c = property_override "telephony.lteOnGsmDevice" "0" c in
      let c = property_override "telephony.lteOnCdmaDevice" "1" c in
      let c = property_override "persist.gps.qc_nlp_in_use" "1" c in
      let c = property_override "persist.loc.nlp_name" "com.qualcomm.location" c in
      let c = property_override "ro.gps.agps_provider" "1" c in
      let c = property_override "ro.config.combined_signal" "true" c in
      let c = property_override "ro.config.multimode_cdma" "1" c in
      let c = property_override "persist.radio.use_se_table_only" "1" c in
      let c = property_override "ro.telephony.default_network" "10" c in
      let g = property_override "ro.telephony.default_network" "9" s in
      let g = property_override "telephony.lteOnGsmDevice" "1" g in
      let g = property_override "telephony.lteOnCdmaDevice" "0" g in if cellular_type then c else g

  unfoldable pub uses_edge_power_profile : (status : Bool) → S → S
  uses_edge_power_profile status s =
      if area.get_property s "uses.s7e_battery" == "true"
      then property_override "ro.power_profile.override" "power_profile_s6e" s
      else if status
      then property_override "ro.power_profile.override" "power_profile_s7e_bat" s
      else s

  -- One branch of the chain.
  unfoldable pub set_variant : Variant → S → S
  set_variant v s =
      let s =
        property_override_dual "ro.build.fingerprint" "ro.vendor.build.fingerprint" v.fingerprint
          s in
      let s = property_override "ro.bootimage.build.fingerprint" v.bootimage_fingerprint s in
      let s = property_override "ro.build.description" v.description s in
      let s = property_override_dual "ro.product.model" "ro.vendor.product.model" v.model s in
      let s = property_override_dual "ro.product.device" "ro.vendor.product.device" v.device s in
      let s = property_override "ro.product.name" v.product s in
      let s = property_override "audio_hal.uses.audience" v.uses_audience s in
      let s = property_override "rild.libpath" v.libpath s in
      let s = uses_edge_power_profile v.edge s in
      is_cdma_device v.cdma (if v.dual_sim then is_dual_sim_device s else s)

  -- `target` is ANDROID_TARGET, which the build gives.
  unfoldable pub vendor_load_properties : (target : String) → S → S
  unfolding find_variant
  vendor_load_properties target s =
      if not (area.get_property s "ro.board.platform" == target)
      then s
      else elim (find_variant (area.get_property s "ro.bootloader") variants) [
        | none ↦ s
        | some v ↦ set_variant v s
      ]
