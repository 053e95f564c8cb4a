-- ===== src/Init/Carriers.antt =====
-- The rest of the branches of `vendor_load_properties` for the SM-G920: libinit/init_sec.cpp.
use android_device_samsung_z.Common.{true, false}
use android_device_samsung_z.Init.Search.{Variant}

abbrev pub g9200 : Variant
g9200 = record {
  name = "G9200";
  fingerprint = "samsung/zerofltezc/zerofltechn:7.0/NRD90M/G9200ZCS2ERC1:user/release-keys";
  bootimage_fingerprint = "samsung/zerofltezc/zerofltechn:7.0/NRD90M/G9200ZCS2ERC1:user/test-keys";
  description = "zerofltezc-user 7.0 NRD90M G9200ZCS2ERC1 release-keys";
  model = "SM-G9200";
  device = "zerofltechn";
  product = "zerofltezc";
  uses_audience = "true";
  libpath = "/vendor/lib64/libsec-ril-spr.so";
  edge = false;
  dual_sim = true;
  cdma = true;
}

abbrev pub g9208 : Variant
g9208 = record {
  name = "G9208";
  fingerprint = "samsung/zerofltezm/zerofltechn:7.0/NRD90M/G9208ZMU2EQK2:user/release-keys";
  bootimage_fingerprint = "samsung/zerofltezm/zerofltechn:7.0/NRD90M/G9208ZMU2EQK2:user/test-keys";
  description = "zerofltezc-user 7.0 NRD90M G9200ZCS2ERC1 release-keys";
  model = "SM-G9208";
  device = "zerofltechn";
  product = "zerofltezm";
  uses_audience = "true";
  libpath = "/vendor/lib64/libsec-ril-spr.so";
  edge = false;
  dual_sim = true;
  cdma = true;
}

abbrev pub g9209 : Variant
g9209 = record {
  name = "G9209";
  fingerprint = "samsung/zerofltectc/zerofltectc:7.0/NRD90M/G9209KES2ERD1:user/release-keys";
  bootimage_fingerprint = "samsung/zerofltectc/zerofltectc:7.0/NRD90M/G9209KES2ERD1:user/test-keys";
  description = "zerofltectc-user 7.0 NRD90M G9209KES2ERD1 release-keys";
  model = "SM-G9209";
  device = "zerofltectc";
  product = "zerofltectc";
  uses_audience = "true";
  libpath = "/vendor/lib64/libsec-ril-spr.so";
  edge = false;
  dual_sim = true;
  cdma = true;
}

abbrev pub g920r4 : Variant
g920r4 = record {
  name = "G920R4";
  fingerprint = "samsung/zeroflteusc/zeroflteusc:7.0/NRD90M/G920R4TYS4DQK2:user/release-keys";
  bootimage_fingerprint =
      "samsung/zeroflteusc/zeroflteusc:7.0/NRD90M/G920R4TYS4DQK2:user/test-keys";
  description = "zeroflteusc-user 7.0 NRD90M G920R4TYS4DQK2 release-keys";
  model = "SM-G920R4";
  device = "zeroflteusc";
  product = "zeroflteusc";
  uses_audience = "true";
  libpath = "/vendor/lib64/libsec-ril-spr.so";
  edge = false;
  dual_sim = true;
  cdma = true;
}

abbrev pub g920r7 : Variant
g920r7 = record {
  name = "G920R7";
  fingerprint = "samsung/zeroflteacg/zeroflteacg:7.0/NRD90M/G920R7WWS3DQL1:user/release-keys";
  bootimage_fingerprint =
      "samsung/zeroflteacg/zeroflteacg:7.0/NRD90M/G920R7WWS3DQL1:user/test-keys";
  description = "zeroflteacg-user 7.0 NRD90M G920R7WWS3DQL1 release-keys";
  model = "SM-G920R7";
  device = "zeroflteacg";
  product = "zeroflteacg";
  uses_audience = "true";
  libpath = "/vendor/lib64/libsec-ril-spr.so";
  edge = false;
  dual_sim = true;
  cdma = true;
}

abbrev pub g920w8 : Variant
g920w8 = record {
  name = "G920W8";
  fingerprint = "samsung/zerofltebmc/zerofltebmc:7.0/NRD90M/G920W8VLS5DQK1:user/release-keys";
  bootimage_fingerprint =
      "samsung/zerofltebmc/zerofltebmc:7.0/NRD90M/G920W8VLS5DQK1:user/test-keys";
  description = "zerofltebmc-user 7.0 NRD90M G920W8VLS5DQK1 release-keys";
  model = "SM-G920W8";
  device = "zerofltebmc";
  product = "zerofltebmc";
  uses_audience = "true";
  libpath = "/vendor/lib64/libsec-ril-canada.so";
  edge = false;
  dual_sim = false;
  cdma = false;
}

abbrev pub g920t : Variant
g920t = record {
  name = "G920T";
  fingerprint = "samsung/zerofltetmo/zerofltetmo:7.0/NRD90M/G920TUVU5FQK1:user/release-keys";
  bootimage_fingerprint = "samsung/zerofltetmo/zerofltetmo:7.0/NRD90M/G920TUVU5FQK1:user/test-keys";
  description = "zerofltetmo-user 7.0 NRD90M G920TUVU5FQK1 release-keys";
  model = "SM-G920T";
  device = "zerofltetmo";
  product = "zerofltetmo";
  uses_audience = "true";
  libpath = "/vendor/lib64/libsec-ril-tmobile.so";
  edge = false;
  dual_sim = false;
  cdma = false;
}

abbrev pub g920 : Variant
g920 = record {
  name = "G920";
  fingerprint = "samsung/zerofltexx/zeroflte:7.0/NRD90M/G920FXXU5EQL5:user/release-keys";
  bootimage_fingerprint = "samsung/zerofltexx/zeroflte:7.0/NRD90M/G920FXXU5EQL5:user/test-keys";
  description = "zerofltexx-user 7.0 NRD90M G920FXXS5EQG2 release-keys";
  model = "SM-G920F";
  device = "zeroflte";
  product = "zerofltexx";
  uses_audience = "false";
  libpath = "/vendor/lib64/libsec-ril.so";
  edge = true;
  dual_sim = false;
  cdma = false;
}
