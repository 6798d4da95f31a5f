-- ===== src/Disk/Mirrors.antt =====
-- What `write_all` through a window does to the copies.
use rust_fatfs.Base.{ℕ, ◌+◌, ◌≤◌, ◌<◌, ◌≡◌, refl, List, length, All}
use rust_fatfs.Base.Result.{ok}
use rust_fatfs.Io.{Stream, write_all}
use rust_fatfs.Io.Contract.{IsBytes, IsByte, patch}
use rust_fatfs.Disk.{Window, DiskSlice, stream}
use rust_fatfs.Disk.Read.{Fits}
use rust_fatfs.Disk.Write.{mirror, write_all_in, mirror-wrote}

-- On a storage that holds all mirrors of a window, bytes that fit behind the offset are written
-- with success, and each mirror then has them at the offset and is as before elsewhere.
pub write_all-mirror :
    {S : Type 0} {storage : Stream S} (c : IsBytes storage) (w : Window) (d : DiskSlice S)
    (bs : List ℕ) (j x : ℕ)
    → Fits c w
    → d.offset + length bs ≤ w.size
    → All IsByte bs
    → j < w.mirrors
    → x < w.size
    → let out = write_all (stream storage w) bs d in
      (out.0 ≡ ok tt) × (mirror c w out.1.inner j x ≡ patch (mirror c w d.inner j) d.offset bs x)
write_all-mirror c w d bs j x fits h q hj hx =
    rw (write_all_in c w fits d bs h q) (refl, mirror-wrote c w fits d bs j x h q hj hx)
