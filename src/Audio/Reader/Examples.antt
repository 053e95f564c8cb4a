-- ===== src/Audio/Reader/Examples.antt =====
-- Reading three frames from periods of two.
use android_device_samsung_z.Common.{◌+◌, refl, [], ◌∷◌, arith}
use android_device_samsung_z.Platform.{success}
use android_device_samsung_z.Audio.Reader.{Reader, Source, read_frames}
use android_device_samsung_z.Audio.Reader.Fifo.{IsReader, IsSteady, IsRead, read_frames-IsRead}

abbrev source : Source
source = λ k. (success, k ∷ (k + 100) ∷ [])

abbrev started : Reader
started = record {
  period_size = 2;
  read_buf = [];
  read_buf_frames = 0;
  read_status = success;
  reads = 0;
}

source-IsSteady : IsSteady source 2
source-IsSteady = record { some_frame = omega arith; succeeds = λ k. refl; fills = λ k. refl }

read_frames_example : IsRead source started 3 [] (read_frames source started 3)
read_frames_example =
    read_frames-IsRead source started 3 (IsReader.used_up refl (omega arith)) source-IsSteady
