-- ===== src/Init/Choice.antt =====
-- Which branch `vendor_load_properties` of libinit/init_sec.cpp takes.
use android_device_samsung_z.Common.{
  ◌≡◌, refl, sym, ap, ◌∙◌, ◌⊎◌, inl, inr, Bool, Bool-cases, true, false, ◌&&◌, not, some, List, [],
  ◌∷◌, arith,
}
use Prim.Native.String.{String}
use android_device_samsung_z.Init.Search.{Variant, contains, find_variant}
use android_device_samsung_z.Init.Table.{variants}

-- No later branch has a text in which the earlier one's text occurs.
none_contains : String → List Variant → Bool
none_contains name [] = true
none_contains name (w ∷ ws) = not (contains w.name name) && none_contains name ws

is_ordered : List Variant → Bool
is_ordered [] = true
is_ordered (v ∷ vs) = none_contains v.name vs && is_ordered vs

-- `v` is one of the branches.
abbrev pub IsBranch : Variant → List Variant → Type 0
IsBranch v [] = ⊥
IsBranch v (w ∷ ws) = (v ≡ w) ⊎ IsBranch v ws

none_contains-branch :
    (name : String) (ws : List Variant) (w : Variant)
    → none_contains name ws ≡ true
    → IsBranch w ws
    → contains w.name name ≡ false
unfolding none_contains
none_contains-branch name [] w h m = absurd m
none_contains-branch name (x ∷ xs) w h (inl e) = ground (arith, h, e)
none_contains-branch name (x ∷ xs) w h (inr m) =
    none_contains-branch name xs w (ground (arith, h)) m

find_variant-specific :
    (bootloader : String) (vs : List Variant) (v w : Variant)
    → is_ordered vs ≡ true
    → find_variant bootloader vs ≡ some v
    → IsBranch w vs
    → contains bootloader w.name ≡ true
    → contains w.name v.name ≡ true
    → w ≡ v
unfolding find_variant is_ordered
find_variant-specific bootloader [] v w ordered found m has narrow = absurd m
find_variant-specific bootloader (x ∷ xs) v w ordered found (inl e) has narrow =
    let own : contains bootloader x.name ≡ true =
      ap (λ u. contains bootloader u.name) (sym e) ∙ has in
    ground (arith, own, e, found)
find_variant-specific bootloader (x ∷ xs) v w ordered found (inr m) has narrow =
    let (apart, rest) : (none_contains x.name xs ≡ true) × (is_ordered xs ≡ true) =
      ground (arith, ordered) in
    elim (Bool-cases (contains bootloader x.name)) [
      | inl first ↦
          let same : v ≡ x = ground (arith, found, first) in
          let hidden = none_contains-branch x.name xs w apart m in
          absurd (cc (sym narrow ∙ ap (λ u. contains w.name u.name) same ∙ hidden))
      | inr passed ↦
          find_variant-specific bootloader xs v w rest (ground (arith, found, passed)) m has narrow
    ]

-- The branch that the bootloader's name takes is the most specific one: no other branch of the
-- chain has a text that is in the bootloader's name and has the taken branch's text in it.
pub vendor_variant-specific :
    (bootloader : String) (v w : Variant)
    → find_variant bootloader variants ≡ some v
    → IsBranch w variants
    → contains bootloader w.name ≡ true
    → contains w.name v.name ≡ true
    → w ≡ v
unfolding is_ordered none_contains contains
vendor_variant-specific bootloader v w = find_variant-specific bootloader variants v w refl
