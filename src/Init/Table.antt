-- ===== src/Init/Table.antt =====
-- The branches of `vendor_load_properties` of libinit/init_sec.cpp in their order.
use android_device_samsung_z.Common.{List, [], ◌∷◌}
use android_device_samsung_z.Init.Search.{Variant}
use android_device_samsung_z.Init.Flat.{g920fd, g920f, g920s, g920k, g920l, g920p, g920i}
use android_device_samsung_z.Init.Carriers.{
  g9200, g9208, g9209, g920r4, g920r7, g920w8, g920t, g920,
}
use android_device_samsung_z.Init.Edge.{
  g925f, g925s, g925k, g925l, g925p, g925i, g9250, g9258, g9259, g925t, g925w8, g925,
}

abbrev pub variants : List Variant
variants =
    g920fd ∷ g920f ∷ g920s ∷ g920k ∷ g920l ∷ g920p ∷ g920i ∷ g9200 ∷ g9208 ∷ g9209 ∷ g920r4 ∷ g920r7
    ∷ g920w8 ∷ g920t ∷ g925f ∷ g925s ∷ g925k ∷ g925l ∷ g925p ∷ g925i ∷ g9250 ∷ g9258 ∷ g9259 ∷ g925t
    ∷ g925w8 ∷ g920 ∷ g925 ∷ []
