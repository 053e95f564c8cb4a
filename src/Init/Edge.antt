-- ===== src/Init/Edge.antt =====
-- The branches of `vendor_load_properties` for the SM-G925: libinit/init_sec.cpp.
use android_device_samsung_z.Common.{true, false}
use android_device_samsung_z.Init.Search.{Variant}

abbrev pub g925f : Variant
g925f = record {
  name = "G925F";
  fingerprint = "samsung/zeroltexx/zerolte:7.0/NRD90M/G925FXXU5EQL5:user/release-keys";
  bootimage_fingerprint = "samsung/zeroltexx/zerolte:7.0/NRD90M/G925FXXU5EQL5:user/test-keys";
  description = "zeroltexx-user 7.0 NRD90M G925FXXU5EQL5 release-keys";
  model = "SM-G925F";
  device = "zeroltexx";
  product = "zerolte";
  uses_audience = "false";
  libpath = "/vendor/lib64/libsec-ril.so";
  edge = true;
  dual_sim = false;
  cdma = false;
}

abbrev pub g925s : Variant
g925s = record {
  name = "G925S";
  fingerprint = "samsung/zerolteskt/zerolteskt:7.0/NRD90M/G925SKSU3EQL1:user/release-keys";
  bootimage_fingerprint = "samsung/zerolteskt/zerolteskt:7.0/NRD90M/G925SKSU3EQL1:user/test-keys";
  description = "zerolteskt-user 7.0 NRD90M G925SKSU3EQL1 release-keys";
  model = "SM-G925S";
  device = "zerolteskt";
  product = "zerolteskt";
  uses_audience = "false";
  libpath = "/vendor/lib64/libsec-ril.so";
  edge = true;
  dual_sim = false;
  cdma = false;
}

abbrev pub g925k : Variant
g925k = record {
  name = "G925K";
  fingerprint = "samsung/zeroltektt/zeroltektt:7.0/NRD90M/G925KKKU3EQL1:user/release-keys";
  bootimage_fingerprint = "samsung/zeroltektt/zeroltektt:7.0/NRD90M/G925KKKU3EQL1:user/test-keys";
  description = "zeroltektt-user 7.0 NRD90M G925KKKU3EQL1 release-keys";
  model = "SM-G925K";
  device = "zeroltektt";
  product = "zeroltektt";
  uses_audience = "false";
  libpath = "/vendor/lib64/libsec-ril.so";
  edge = true;
  dual_sim = false;
  cdma = false;
}

abbrev pub g925l : Variant
g925l = record {
  name = "G925L";
  fingerprint = "samsung/zeroltelgt/zeroltelgt:7.0/NRD90M/G925LKLU3EQL1:user/release-keys";
  bootimage_fingerprint = "samsung/zeroltelgt/zeroltelgt:7.0/NRD90M/G925LKLU3EQL1:user/test-keys";
  description = "zeroltelgt-user 7.0 NRD90M G925LKLU3EQL1 release-keys";
  model = "SM-G925L";
  device = "zeroltelgt";
  product = "zeroltelgt";
  uses_audience = "false";
  libpath = "/vendor/lib64/libsec-ril.so";
  edge = true;
  dual_sim = false;
  cdma = false;
}

abbrev pub g925p : Variant
g925p = record {
  name = "G925P";
  fingerprint = "samsung/zeroltespr/zeroltespr:7.0/NRD90M/G925PVPS4DQL2:user/release-keys";
  bootimage_fingerprint = "samsung/zeroltespr/zeroltespr:7.0/NRD90M/G925PVPS4DQL2:user/test-keys";
  description = "zeroltespr-user 7.0 NRD90M G925PVPS4DQL2 release-keys";
  model = "SM-G920P";
  device = "zeroltespr";
  product = "zeroltespr";
  uses_audience = "true";
  libpath = "/vendor/lib64/libsec-ril-spr.so";
  edge = true;
  dual_sim = false;
  cdma = true;
}

abbrev pub g925i : Variant
g925i = record {
  name = "G925I";
  fingerprint = "samsung/zeroltedv/zerolte:7.0/NRD90M/G925IDVU3FQL4:user/release-keys";
  bootimage_fingerprint = "samsung/zeroltedv/zerolte:7.0/NRD90M/G925IDVU3FQL4:user/test-keys";
  description = "zeroltedv-user 7.0 NRD90M G925IDVU3FQL4 release-keys";
  model = "SM-G925I";
  device = "zerolte";
  product = "zeroltedv";
  uses_audience = "false";
  libpath = "/vendor/lib64/libsec-ril-india.so";
  edge = true;
  dual_sim = false;
  cdma = false;
}

abbrev pub g9250 : Variant
g9250 = record {
  name = "G9250";
  fingerprint = "samsung/zeroltezc/zeroltechn:7.0/NRD90M/G9250ZCS2ERC2:user/release-keys";
  bootimage_fingerprint = "samsung/zeroltezc/zeroltechn:7.0/NRD90M/G9250ZCS2ERC2:user/test-keys";
  description = "zeroltezc-user 7.0 NRD90M G9250ZCS2ERC2 release-keys";
  model = "SM-G9250";
  device = "zeroltechn";
  product = "zeroltezc";
  uses_audience = "false";
  libpath = "/vendor/lib64/libsec-ril-spr.so";
  edge = true;
  dual_sim = true;
  cdma = true;
}

abbrev pub g9258 : Variant
g9258 = record {
  name = "G9258";
  fingerprint = "samsung/zeroltezc/zeroltechn:7.0/NRD90M/G9250ZCS2ERC2:user/release-keys";
  bootimage_fingerprint = "samsung/zeroltezc/zeroltechn:7.0/NRD90M/G9250ZCS2ERC2:user/test-keys";
  description = "zeroltezc-user 7.0 NRD90M G9250ZCS2ERC2 release-keys";
  model = "SM-G9250";
  device = "zeroltechn";
  product = "zeroltezc";
  uses_audience = "false";
  libpath = "/vendor/lib64/libsec-ril-spr.so";
  edge = true;
  dual_sim = true;
  cdma = true;
}

abbrev pub g9259 : Variant
g9259 = record {
  name = "G9259";
  fingerprint = "samsung/zeroltezc/zeroltechn:7.0/NRD90M/G9250ZCS2ERC2:user/release-keys";
  bootimage_fingerprint = "samsung/zeroltezc/zeroltechn:7.0/NRD90M/G9250ZCS2ERC2:user/test-keys";
  description = "zeroltezc-user 7.0 NRD90M G9250ZCS2ERC2 release-keys";
  model = "SM-G9250";
  device = "zeroltechn";
  product = "zeroltezc";
  uses_audience = "false";
  libpath = "/vendor/lib64/libsec-ril-spr.so";
  edge = true;
  dual_sim = true;
  cdma = true;
}

abbrev pub g925t : Variant
g925t = record {
  name = "G925T";
  fingerprint = "samsung/zeroltetmo/zeroltetmo:7.0/NRD90M/G925TUVU5FQK1:user/release-keys";
  bootimage_fingerprint = "samsung/zeroltetmo/zeroltetmo:7.0/NRD90M/G925TUVU5FQK1:user/test-keys";
  description = "zeroltetmo-user 7.0 NRD90M G925TUVU5FQK1 release-keys";
  model = "SM-G925T";
  device = "zeroltetmo";
  product = "zeroltetmo";
  uses_audience = "true";
  libpath = "/vendor/lib64/libsec-ril-tmobile.so";
  edge = true;
  dual_sim = false;
  cdma = false;
}

abbrev pub g925w8 : Variant
g925w8 = record {
  name = "G925W8";
  fingerprint = "samsung/zeroltebmc/zeroltebmc:7.0/NRD90M/G925W8VLS5DQK1:user/release-keys";
  bootimage_fingerprint = "samsung/zeroltebmc/zeroltebmc:7.0/NRD90M/G925W8VLS5DQK1:user/test-keys";
  description = "zeroltebmc-user 7.0 NRD90M G925W8VLS5DQK1 release-keys";
  model = "SM-G925W8";
  device = "zeroltebmc";
  product = "zeroltebmc";
  uses_audience = "true";
  libpath = "/vendor/lib64/libsec-ril-canada.so";
  edge = true;
  dual_sim = false;
  cdma = false;
}

abbrev pub g925 : Variant
g925 = record {
  name = "G925";
  fingerprint = "samsung/zeroltexx/zerolte:7.0/NRD90M/G925FXXU5EQL5:user/release-keys";
  bootimage_fingerprint = "samsung/zeroltexx/zerolte:7.0/NRD90M/G925FXXU5EQL5:user/test-keys";
  description = "zeroltexx-user 7.0 NRD90M G925FXXU5EQL5 release-keys";
  model = "SM-G925F";
  device = "zeroltexx";
  product = "zerolte";
  uses_audience = "false";
  libpath = "/vendor/lib64/libsec-ril.so";
  edge = true;
  dual_sim = false;
  cdma = false;
}
