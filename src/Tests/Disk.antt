-- ===== src/Tests/Disk.antt =====
-- A disk buffer with one message read and one to read.
use eventr.Common.{String, [], ◌∷◌, ℕ, refl, some, arith}
use eventr.Buffer.Disk.{Disk, read_next}
use eventr.Buffer.Disk.Unread.{Inv}
use eventr.Buffer.Disk.Reads.{read_next-unread, Given}

abbrev pub disk : Disk String
disk = record {
  segments =
      record { number = 1; records = "a" ∷ "b" ∷ [] }
      ∷ record { number = 2; records = "c" ∷ [] }
      ∷ [];
  writer = some (record { segment = 2; size = 10 });
  total = 30;
  read = some (record { segment = 1; offset = 2 });
  saved = some (record { segment = 1; offset = 2 });
}

abbrev pub ten : String → ℕ
ten s = 10

pub disk-Inv : Inv ten disk
disk-Inv = record {
  ordered = ((omega arith, tt), (tt, tt));
  written = refl;
  placed = (refl, omega arith);
  counted = refl;
}

read_next-unread_example : Given ten disk (read_next ten disk)
read_next-unread_example = read_next-unread ten disk disk-Inv
