-- ===== src/Init/Result.antt =====
-- What the properties read after `vendor_load_properties` of libinit/init_sec.cpp.
use android_device_samsung_z.Common.{
  ◌≡◌, refl, sym, ap, ◌∙◌, inl, inr, Bool, Bool-cases, true, false, Option-cases, none, some, List,
  [], ◌∷◌, ◌++◌, if◌then◌else◌,
}
use Prim.Native.String.{String}
use text.Mathlib.Text.{◌==◌}
use android_device_samsung_z.Init.{
  PropertyArea, property_override, property_override_dual, is_dual_sim_device, is_cdma_device,
  uses_edge_power_profile, set_variant, vendor_load_properties,
}
use android_device_samsung_z.Init.Search.{Variant, find_variant}
use android_device_samsung_z.Init.Values.{
  dual_sim_values, cdma_values, edge_values, build_values, values, last_value, last_value_again,
  tail_reads, tail_ignores,
}
use android_device_samsung_z.Init.Table.{variants}

-- What the property service documents: a property reads what was written to it last.
pub record IsPropertyArea {ℓ} {S : Type ℓ} (area : PropertyArea S) : Type ℓ where
  pub get-update :
      (s : S) (k v j : String)
      → area.is_found s k ≡ true
      → area.get_property (area.property_update s k v) j
        ≡ (if k == j then v else area.get_property s j)
  pub get-add :
      (s : S) (k v j : String)
      → area.is_found s k ≡ false
      → area.get_property (area.property_add s k v) j
        ≡ (if k == j then v else area.get_property s j)

module _ {ℓ} {S : Type ℓ} (area : PropertyArea S) where
  abbrev pub is_s7e : S → Bool
  is_s7e s = area.get_property s "uses.s7e_battery" == "true"

  -- The branch that a run takes.
  abbrev pub Takes : (target : String) → S → Variant → Type 0
  Takes target s v =
      ((area.get_property s "ro.board.platform" == target) ≡ true)
      × (find_variant (area.get_property s "ro.bootloader") variants ≡ some v)

module _ {ℓ} {S : Type ℓ} (area : PropertyArea S) (lawful : IsPropertyArea area) where
  get-override :
      (k v j : String) (s : S)
      → area.get_property (property_override area k v s) j
        ≡ (if k == j then v else area.get_property s j)
  unfolding property_override
  get-override k v j s = elim (Bool-cases (area.is_found s k)) [
    | inl found ↦ rw found (lawful.get-update s k v j found)
    | inr fresh ↦ rw fresh (lawful.get-add s k v j fresh)
  ]

  override_all : List (String × String) → S → S
  override_all [] s = s
  override_all ((k, v) ∷ kvs) s = override_all kvs (property_override area k v s)

  override_all-append :
      (xs ys : List (String × String)) (s : S)
      → override_all (xs ++ ys) s ≡ override_all ys (override_all xs s)
  unfolding override_all
  override_all-append [] ys s = refl
  override_all-append ((k, v) ∷ xs) ys s = override_all-append xs ys (property_override area k v s)

  get-override_all :
      (kvs : List (String × String)) (j : String) (s : S)
      → area.get_property (override_all kvs s) j ≡ last_value j kvs (area.get_property s j)
  unfolding override_all last_value
  get-override_all [] j s = refl
  get-override_all ((k, v) ∷ kvs) j s =
      get-override_all kvs j (property_override area k v s)
      ∙ ap (last_value j kvs) (get-override k v j s)

  dual_sim-override_all :
      (dual : Bool) (s : S)
      → (if dual then is_dual_sim_device area s else s) ≡ override_all (dual_sim_values dual) s
  unfolding override_all is_dual_sim_device
  dual_sim-override_all true s = refl
  dual_sim-override_all false s = refl

  cdma-override_all :
      (cdma : Bool) (s : S) → is_cdma_device area cdma s ≡ override_all (cdma_values cdma) s
  unfolding override_all is_cdma_device
  cdma-override_all true s = refl
  cdma-override_all false s = refl

  edge_by-override_all :
      (battery status : Bool) (s : S)
      → (if battery
          then property_override area "ro.power_profile.override" "power_profile_s6e" s
          else if status
          then property_override area "ro.power_profile.override" "power_profile_s7e_bat" s
          else s)
        ≡ override_all (edge_values battery status) s
  unfolding override_all
  edge_by-override_all true status s = refl
  edge_by-override_all false true s = refl
  edge_by-override_all false false s = refl

  edge-override_all :
      (status : Bool) (s : S)
      → uses_edge_power_profile area status s ≡ override_all (edge_values (is_s7e area s) status) s
  unfolding uses_edge_power_profile
  edge-override_all status s = edge_by-override_all (is_s7e area s) status s

  battery_stays :
      (v : Variant) (s : S) → is_s7e area (override_all (build_values v) s) ≡ is_s7e area s
  unfolding last_value
  battery_stays v s =
      ap (λ (x : String). x == "true") (get-override_all (build_values v) "uses.s7e_battery" s)

  set_variant-override_all :
      (v : Variant) (s : S) → set_variant area v s ≡ override_all (values v (is_s7e area s)) s
  unfolding set_variant property_override_dual values override_all
  set_variant-override_all v s =
      let built = override_all (build_values v) s in
      let edged = override_all (edge_values (is_s7e area s) v.edge) built in
      let edge : uses_edge_power_profile area v.edge built ≡ edged =
        edge-override_all v.edge built
        ∙ ap (λ b. override_all (edge_values b v.edge) built) (battery_stays v s) in
      let dual =
        ap (λ x. if v.dual_sim then is_dual_sim_device area x else x) edge
        ∙ dual_sim-override_all v.dual_sim edged in
      ap (is_cdma_device area v.cdma) dual
      ∙ cdma-override_all v.cdma (override_all (dual_sim_values v.dual_sim) edged)
      ∙ sym (override_all-append (dual_sim_values v.dual_sim) (cdma_values v.cdma) edged)
      ∙ sym (
          override_all-append (edge_values (is_s7e area s) v.edge)
            (dual_sim_values v.dual_sim ++ cdma_values v.cdma) built)

  -- Where a property reads what was written to it last: after `vendor_load_properties` each
  -- property reads as before if the platform is not the target or no branch is taken; else the
  -- value that the list of the branch's writes gives last, and as before if it gives none.
  pub vendor_load_properties-get :
      (target : String) (s : S) (j : String)
      → area.get_property (vendor_load_properties area target s) j ≡ (
          if area.get_property s "ro.board.platform" == target
          then elim (find_variant (area.get_property s "ro.bootloader") variants) [
            | none ↦ area.get_property s j
            | some v ↦ last_value j (values v (is_s7e area s)) (area.get_property s j)
          ]
          else area.get_property s j)
  unfolding vendor_load_properties
  vendor_load_properties-get target s j =
      let platform = area.get_property s "ro.board.platform" == target in
      let bootloader = area.get_property s "ro.bootloader" in
      elim (Bool-cases platform) [
        | inl ours ↦ elim (Option-cases (find_variant bootloader variants)) [
          | inl absent ↦ rw (ours, absent) refl
          | inr (v, found) ↦
              rw (ours, found)
                (ap (λ t. area.get_property t j) (set_variant-override_all v s)
                  ∙ get-override_all (values v (is_s7e area s)) j s)
        ]
        | inr other ↦ rw other refl
      ]

  taken-get :
      (target : String) (s : S) (v : Variant) (j : String)
      → Takes area target s v
      → area.get_property (vendor_load_properties area target s) j
        ≡ last_value j (values v (is_s7e area s)) (area.get_property s j)
  taken-get target s v j (ours, found) =
      vendor_load_properties-get target s j ∙ rw (ours, found) refl

  -- Where a property reads what was written to it last, after a run that takes a branch the two
  -- names of the model, of the device and of the fingerprint read the branch's value, and LTE is on
  -- for exactly one of CDMA and GSM, with the default network of that one.
  pub vendor_load_properties-agree :
      (target : String) (s : S) (v : Variant)
      → Takes area target s v
      → let get = area.get_property (vendor_load_properties area target s) in
        (get "ro.product.model" ≡ v.model)
        × (get "ro.vendor.product.model" ≡ v.model)
        × (get "ro.product.device" ≡ v.device)
        × (get "ro.vendor.product.device" ≡ v.device)
        × (get "ro.build.fingerprint" ≡ v.fingerprint)
        × (get "ro.vendor.build.fingerprint" ≡ v.fingerprint)
        × (get "telephony.lteOnCdmaDevice" ≡ (if v.cdma then "1" else "0"))
        × (get "telephony.lteOnGsmDevice" ≡ (if v.cdma then "0" else "1"))
        × (get "ro.telephony.default_network" ≡ (if v.cdma then "10" else "9"))
  unfolding values last_value
  vendor_load_properties-agree target s v taken =
      let get = area.get_property s in
      let reads =
        tail_reads (is_s7e area s) v.edge v.dual_sim v.cdma v.model v.model v.device v.device
          v.fingerprint v.fingerprint (get "telephony.lteOnCdmaDevice")
          (get "telephony.lteOnGsmDevice") (get "ro.telephony.default_network") in
      (
        taken-get target s v "ro.product.model" taken ∙ reads.0,
        taken-get target s v "ro.vendor.product.model" taken ∙ reads.1,
        taken-get target s v "ro.product.device" taken ∙ reads.2,
        taken-get target s v "ro.vendor.product.device" taken ∙ reads.3,
        taken-get target s v "ro.build.fingerprint" taken ∙ reads.4,
        taken-get target s v "ro.vendor.build.fingerprint" taken ∙ reads.5,
        taken-get target s v "telephony.lteOnCdmaDevice" taken ∙ reads.6,
        taken-get target s v "telephony.lteOnGsmDevice" taken ∙ reads.7,
        taken-get target s v "ro.telephony.default_network" taken ∙ reads.8,
      )

  taken_again :
      (target : String) (s : S) (v : Variant)
      → Takes area target s v
      → let r = vendor_load_properties area target s in
        Takes area target r v × (is_s7e area r ≡ is_s7e area s)
  unfolding values last_value
  taken_again target s v (ours, found) =
      let get = area.get_property s in
      let kept =
        tail_ignores (is_s7e area s) v.edge v.dual_sim v.cdma (get "ro.board.platform")
          (get "ro.bootloader") (get "uses.s7e_battery") in
      let read = λ (j : String). taken-get target s v j (ours, found) in
      (
        (
          ap (λ (x : String). x == target) (read "ro.board.platform" ∙ kept.0) ∙ ours,
          ap (λ x. find_variant x variants) (read "ro.bootloader" ∙ kept.1) ∙ found,
        ),
        ap (λ (x : String). x == "true") (read "uses.s7e_battery" ∙ kept.2),
      )

  last_value_twice :
      (j : String) (kvs : List (String × String)) (present : String)
      → last_value j kvs (last_value j kvs present) ≡ last_value j kvs present
  last_value_twice j kvs present =
      elim (last_value_again j kvs (last_value j kvs present) present) [
        | inl same ↦ same
        | inr (kept, bare) ↦ kept
      ]

  -- Where a property reads what was written to it last, a second run of `vendor_load_properties` is
  -- equivalent to none: every property reads the same after it.
  pub vendor_load_properties_idem :
      (target : String) (s : S) (j : String)
      → let r = vendor_load_properties area target s in
        area.get_property (vendor_load_properties area target r) j ≡ area.get_property r j
  vendor_load_properties_idem target s j =
      let r = vendor_load_properties area target s in
      let platform = area.get_property s "ro.board.platform" == target in
      let bootloader = area.get_property s "ro.bootloader" in
      elim (Bool-cases platform) [
        | inl ours ↦ elim (Option-cases (find_variant bootloader variants)) [
          | inl absent ↦
              let bare : (k : String) → area.get_property r k ≡ area.get_property s k =
                λ k. vendor_load_properties-get target s k ∙ rw (ours, absent) refl in
              vendor_load_properties-get target r j
              ∙ rw (bare "ro.board.platform", ours, bare "ro.bootloader", absent) refl
          | inr (v, found) ↦
              let taken : Takes area target s v = (ours, found) in
              let (again, battery) = taken_again target s v taken in
              let first = taken-get target s v j taken in
              taken-get target r v j again
              ∙ ap (λ b. last_value j (values v b) (area.get_property r j)) battery
              ∙ ap (last_value j (values v (is_s7e area s))) first
              ∙ last_value_twice j (values v (is_s7e area s)) (area.get_property s j)
              ∙ sym first
        ]
        | inr other ↦
            let bare : (k : String) → area.get_property r k ≡ area.get_property s k =
              λ k. vendor_load_properties-get target s k ∙ rw other refl in
            vendor_load_properties-get target r j ∙ rw (bare "ro.board.platform", other) refl
      ]
