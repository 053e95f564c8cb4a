-- ===== src/Init/Flat.antt =====
-- The first of the branches of `vendor_load_properties` for the SM-G920, by the text that each looks
-- for: libinit/init_sec.cpp.
use android_device_samsung_z.Common.{true, false}
use android_device_samsung_z.Init.Search.{Variant}

abbrev pub g920fd : Variant
g920fd = record {
  name = "G920FD";
  fingerprint = "samsung/zerofltexx/zeroflte:7.0/NRD90M/G920FXXU5EQL5:user/release-keys";
  bootimage_fingerprint = "samsung/zerofltexx/zeroflte:7.0/NRD90M/G920FXXU5EQL5:user/test-keys";
  description = "zerofltexx-user 7.0 NRD90M G920FXXS5EQG2 release-keys";
  model = "SM-G920F";
  device = "zeroflte";
  product = "zerofltexx";
  uses_audience = "false";
  libpath = "/vendor/lib64/libsec-ril.so";
  edge = false;
  dual_sim = true;
  cdma = false;
}

abbrev pub g920f : Variant
g920f = record {
  name = "G920F";
  fingerprint = "samsung/zerofltexx/zeroflte:7.0/NRD90M/G920FXXU5EQL5:user/release-keys";
  bootimage_fingerprint = "samsung/zerofltexx/zeroflte:7.0/NRD90M/G920FXXU5EQL5:user/test-keys";
  description = "zerofltexx-user 7.0 NRD90M G920FXXS5EQG2 release-keys";
  model = "SM-G920F";
  device = "zeroflte";
  product = "zerofltexx";
  uses_audience = "false";
  libpath = "/vendor/lib64/libsec-ril.so";
  edge = false;
  dual_sim = false;
  cdma = false;
}

abbrev pub g920s : Variant
g920s = record {
  name = "G920S";
  fingerprint = "samsung/zeroflteskt/zeroflteskt:7.0/NRD90M/G920SKSU3EQL1:user/release-keys";
  bootimage_fingerprint = "samsung/zeroflteskt/zeroflteskt:7.0/NRD90M/G920SKSU3EQL1:user/test-keys";
  description = "zeroflteskt-user 7.0 NRD90M G920SKSU3EQL1 release-keys";
  model = "SM-G920S";
  device = "zeroflteskt";
  product = "zeroflteskt";
  uses_audience = "false";
  libpath = "/vendor/lib64/libsec-ril.so";
  edge = false;
  dual_sim = false;
  cdma = false;
}

abbrev pub g920k : Variant
g920k = record {
  name = "G920K";
  fingerprint = "samsung/zerofltektt/zerofltektt:7.0/NRD90M/G920KKKU3EQL1:user/release-keys";
  bootimage_fingerprint = "samsung/zerofltektt/zerofltektt:7.0/NRD90M/G920KKKU3EQL1:user/test-keys";
  description = "zerofltektt-user 7.0 NRD90M G920KKKU3EQL1 release-keys";
  model = "SM-G920K";
  device = "zerofltektt";
  product = "zerofltektt";
  uses_audience = "false";
  libpath = "/vendor/lib64/libsec-ril.so";
  edge = false;
  dual_sim = false;
  cdma = false;
}

abbrev pub g920l : Variant
g920l = record {
  name = "G920L";
  fingerprint = "samsung/zerofltelgt/zerofltelgt:7.0/NRD90M/G920LKLU3EQL1:user/release-keys";
  bootimage_fingerprint = "samsung/zerofltelgt/zerofltelgt:7.0/NRD90M/G920LKLU3EQL1:user/test-keys";
  description = "zerofltelgt-user 7.0 NRD90M G920LKLU3EQL1 release-keys";
  model = "SM-G920L";
  device = "zerofltelgt";
  product = "zerofltelgt";
  uses_audience = "false";
  libpath = "/vendor/lib64/libsec-ril.so";
  edge = false;
  dual_sim = false;
  cdma = false;
}

abbrev pub g920p : Variant
g920p = record {
  name = "G920P";
  fingerprint = "samsung/zerofltespr/zerofltespr:7.0/NRD90M/G920PVPS4DQK1:user/release-keys";
  bootimage_fingerprint = "samsung/zerofltespr/zerofltespr:7.0/NRD90M/G920PVPS4DQK1:user/test-keys";
  description = "zerofltespr-user 7.0 NRD90M G920PVPS4DQK1 release-keys";
  model = "SM-G920P";
  device = "zerofltespr";
  product = "zerofltespr";
  uses_audience = "true";
  libpath = "/vendor/lib64/libsec-ril-spr.so";
  edge = false;
  dual_sim = false;
  cdma = true;
}

abbrev pub g920i : Variant
g920i = record {
  name = "G920I";
  fingerprint = "samsung/zerofltedv/zeroflte:7.0/NRD90M/G920IDVS3FQL3:user/release-keys";
  bootimage_fingerprint = "samsung/zerofltedv/zeroflte:7.0/NRD90M/G920IDVS3FQL3:user/test-keys";
  description = "zerofltedv-user 7.0 NRD90M G920IDVS3FQL3 release-keys";
  model = "SM-G920I";
  device = "zeroflte";
  product = "zerofltedv";
  uses_audience = "false";
  libpath = "/vendor/lib64/libsec-ril-india.so";
  edge = false;
  dual_sim = false;
  cdma = false;
}
