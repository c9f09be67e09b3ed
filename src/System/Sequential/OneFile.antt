-- ===== src/System/Sequential/OneFile.antt =====
-- The calls on the file of Host/Simple are never cut short, and `fsync` and `fstat` succeed.
use qemu_cvbd_shraed_memory.Common.{refl, take, drop, length-take, length-drop, arith}
use qemu_cvbd_shraed_memory.Iov.{overwrite}
use qemu_cvbd_shraed_memory.Host.Simple.{one_file}
use qemu_cvbd_shraed_memory.System.Volume.{WholeCalls}
use qemu_cvbd_shraed_memory.System.Sequential.{Reliable}

whole_file : WholeCalls one_file 3
whole_file = record {
  write_whole = λ bytes o d h. (overwrite d o bytes, ground arith);
  read_whole = λ n o d h.
      (take n (drop o d), d, refl, omega (arith, length-take n (drop o d), length-drop o d));
}

pub one_file-Reliable : Reliable one_file 3
one_file-Reliable = record {
  whole = whole_file;
  synced = λ d. (d, refl, refl);
  sized = λ d. (d, refl, refl);
}
