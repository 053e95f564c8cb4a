-- ===== src/Init/Search.antt =====
-- What the branches of `vendor_load_properties` of libinit/init_sec.cpp differ in, and the search
-- for a text in the bootloader's name.
use android_device_samsung_z.Common.{
  Bool, true, false, ◌&&◌, ◌||◌, ◌==◌, Option, none, some, List, [], ◌∷◌, if◌then◌else◌,
}
use Prim.Native.Char.{code}
use Prim.Native.String.{String}

-- One branch: the text it looks for, and what it writes.
pub record Variant : Type 0 where
  pub name : String
  pub fingerprint : String
  pub bootimage_fingerprint : String
  pub description : String
  pub model : String
  pub device : String
  pub product : String
  pub uses_audience : String
  pub libpath : String
  pub edge : Bool  -- the argument of uses_edge_power_profile
  pub dual_sim : Bool  -- whether is_dual_sim_device is called
  pub cdma : Bool  -- the argument of is_cdma_device

unfoldable pub begins_with : String → String → Bool
begins_with s String.[] = true
begins_with String.[] (String.◌∷◌ c t) = false
begins_with (String.◌∷◌ d s) (String.◌∷◌ c t) = code d == code c && begins_with s t

-- `s.find(t) != std::string::npos`
unfoldable pub contains : String → String → Bool
unfolding begins_with
contains String.[] t = begins_with String.[] t
contains (String.◌∷◌ d s) t = begins_with (String.◌∷◌ d s) t || contains s t

-- The chain of `else if`s: the first branch whose text the bootloader's name has in it.
unfoldable pub find_variant : String → List Variant → Option Variant
find_variant bootloader [] = none
find_variant bootloader (v ∷ vs) =
    if contains bootloader v.name then some v else find_variant bootloader vs
