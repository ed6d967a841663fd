-- ===== src/Tests/Edge.antt =====
-- A message for an edge whose disk buffer is full.
use eventr.Common.{none, true, ◌≡◌, String, [], ◌∷◌, refl, some, false}
use eventr.Buffer.Disk.{Disk, Limits, read_next, read_rounds, read_at, open_read, records_of}
use eventr.Buffer.Edge.{Edge, stop, go, enqueue, drain_turn, waiting}
use eventr.Buffer.Edge.Drains.{IsDrain, drain_turn-IsDrain, drain_turn-waits, idle_edge}
use eventr.Buffer.Edge.Accounts.{Accounted, enqueue-Accounted}
use eventr.Tests.Disk.{disk, ten, disk-Inv}

abbrev edge : Edge String
edge = record {
  type = "overflow";
  strategy = "drop_oldest";
  capacity = 1;
  mem = "m" ∷ [];
  disk = some disk;
  closed = false;
}

abbrev limits : Limits
limits = record { segment_size = 20; max_size = 30 }

enqueue-Accounted_example :
    Accounted
      (λ s. s)
      ten
      limits
      (λ s. s)
      (λ m. refl)
      "a"
      "d"
      edge
      (enqueue ten limits (λ s. s) go go "d" edge)
enqueue-Accounted_example =
    enqueue-Accounted (λ s. s) ten limits (λ s. s) (λ m. refl) "a" go go "d" edge disk-Inv

drain_turn-IsDrain_example : IsDrain (λ s. s) ten "c" edge (drain_turn ten true go go edge)
drain_turn-IsDrain_example = drain_turn-IsDrain (λ s. s) ten "c" true go go edge disk-Inv

-- A disk buffer whose one message was read, from the segment that is written.
abbrev all_read : Disk String
all_read = record {
  segments = record { number = 2; records = "c" ∷ [] } ∷ [];
  writer = some (record { segment = 2; size = 10 });
  total = 10;
  read = some (record { segment = 2; offset = 1 });
  saved = some (record { segment = 2; offset = 1 });
}

all_read_stays : read_next ten all_read ≡ (all_read, some none)
unfolding read_next read_rounds read_at open_read records_of
all_read_stays = refl

drain_turn-waits_example :
    drain_turn ten true stop go (idle_edge "disk" "block" 64 all_read)
    ≡ (waiting, idle_edge "disk" "block" 64 all_read)
drain_turn-waits_example =
    drain_turn-waits "disk" "block" 64 ten true stop go all_read all_read_stays refl
