-- ===== src/Init/Examples.antt =====
-- The theorems about libinit/init_sec.cpp with the properties in a list.
use android_device_samsung_z.Common.{
  ◌≡◌, refl, Bool, true, false, none, some, List, [], ◌∷◌, inl, if◌then◌else◌,
}
use Prim.Native.String.{String}
use text.Mathlib.Text.{◌==◌}
use android_device_samsung_z.Init.{PropertyArea, vendor_load_properties}
use android_device_samsung_z.Init.Search.{begins_with, contains, find_variant}
use android_device_samsung_z.Init.Flat.{g920fd}
use android_device_samsung_z.Init.Carriers.{g9208}
use android_device_samsung_z.Init.Table.{variants}
use android_device_samsung_z.Init.Choice.{vendor_variant-specific}
use android_device_samsung_z.Init.Values.{values, last_value}
use android_device_samsung_z.Init.Result.{
  IsPropertyArea, is_s7e, vendor_load_properties-get, vendor_load_properties-agree,
  vendor_load_properties_idem,
}

abbrev read_list : List (String × String) → String → String
read_list [] j = ""
read_list ((k, v) ∷ kvs) j = if k == j then v else read_list kvs j

abbrev found_list : List (String × String) → String → Bool
found_list [] j = false
found_list ((k, v) ∷ kvs) j = if k == j then true else found_list kvs j

abbrev listed_area : PropertyArea (List (String × String))
listed_area = record {
  get_property = read_list;
  is_found = found_list;
  property_update = λ s k v. (k, v) ∷ s;
  property_add = λ s k v. (k, v) ∷ s;
}

listed_area-IsPropertyArea : IsPropertyArea listed_area
listed_area-IsPropertyArea = record {
  get-update = λ s k v j found. refl;
  get-add = λ s k v j fresh. refl;
}

abbrev booted : List (String × String)
booted = ("ro.board.platform", "exynos5") ∷ ("ro.bootloader", "G9208ZMU2EQK2") ∷ []

found_g9208 : find_variant "G9208ZMU2EQK2" variants ≡ some g9208
unfolding find_variant contains begins_with
found_g9208 = refl

specific_example : g920fd ≡ g920fd
unfolding contains begins_with
specific_example =
    vendor_variant-specific "G920FDXXU" g920fd g920fd
      (unfold find_variant contains begins_with in refl) (inl refl) refl refl

abbrev loaded : List (String × String)
loaded = vendor_load_properties listed_area "exynos5" booted

get_example : read_list loaded "ro.product.model" ≡ (
    if read_list booted "ro.board.platform" == "exynos5"
    then elim (find_variant (read_list booted "ro.bootloader") variants) [
      | none ↦ read_list booted "ro.product.model"
      | some v ↦
          last_value "ro.product.model"
            (values v (is_s7e listed_area booted))
            (read_list booted "ro.product.model")
    ]
    else read_list booted "ro.product.model")
get_example =
    vendor_load_properties-get listed_area listed_area-IsPropertyArea "exynos5" booted
      "ro.product.model"

agree_example :
    (read_list loaded "ro.product.model" ≡ "SM-G9208")
    × (read_list loaded "ro.vendor.product.model" ≡ "SM-G9208")
    × (read_list loaded "ro.product.device" ≡ "zerofltechn")
    × (read_list loaded "ro.vendor.product.device" ≡ "zerofltechn")
    × (read_list loaded "ro.build.fingerprint" ≡ g9208.fingerprint)
    × (read_list loaded "ro.vendor.build.fingerprint" ≡ g9208.fingerprint)
    × (read_list loaded "telephony.lteOnCdmaDevice" ≡ "1")
    × (read_list loaded "telephony.lteOnGsmDevice" ≡ "0")
    × (read_list loaded "ro.telephony.default_network" ≡ "10")
agree_example =
    vendor_load_properties-agree listed_area listed_area-IsPropertyArea "exynos5" booted g9208
      (refl, found_g9208)

idem_example :
    read_list (vendor_load_properties listed_area "exynos5" loaded) "rild.libpath"
    ≡ read_list loaded "rild.libpath"
idem_example =
    vendor_load_properties_idem listed_area listed_area-IsPropertyArea "exynos5" booted
      "rild.libpath"
