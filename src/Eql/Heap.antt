-- ===== src/Eql/Heap.antt =====
-- The maps that a program of internal/eql/eql.go and the messages hold, each under an address: a Go
-- map is a reference, which several messages may share. A map lies in its cell with the maps inside it.
use eventr.Common.{ℕ, suc, ◌<◌, if◌then◌else◌, eqb, ◌≡◌, ◌≢◌, arith}
use eventr.Config.Value.{Value, Fields, nil, object}

abbrev pub Ref : Type 0
Ref = ℕ

pub record Heap : Type 0 where
  pub cell : Ref → Fields
  pub next : Ref

unfoldable pub read : Ref → Heap → Fields
read a h = h.cell a

unfoldable pub write : Ref → Fields → Heap → Heap
write a m h = record h { cell = λ b. if eqb b a then m else h.cell b }

-- A new map.
unfoldable pub alloc : Fields → Heap → Ref × Heap
unfolding write
alloc m h = let w = write h.next m h in (h.next, record w { next = suc h.next })

-- A decoded value: a map, or anything else.
pub data Data : Type 0 where
  map_at : Ref → Data
  nil_map : Data
  other : Value → Data

-- A decoded value, as it is stored below a map.
unfoldable pub value_of : Data → Heap → Value
unfolding read
value_of (map_at a) h = object (read a h)
value_of nil_map h = object nil
value_of (other v) h = v

-- deepCopyValue
unfoldable pub deep_copy : Data → Heap → Data × Heap
unfolding alloc
deep_copy (map_at a) h = let (b, h') = alloc (read a h) h in (map_at b, h')
deep_copy nil_map h = let (b, h') = alloc nil h in (map_at b, h')
deep_copy (other v) h = (other v, h)

pub read-write_same : (a : Ref) (m : Fields) (h : Heap) → read a (write a m h) ≡ m
unfolding read write
read-write_same a m h = ground arith

pub read-write_other : (a b : Ref) (m : Fields) (h : Heap) → b ≢ a → read b (write a m h) ≡ read b h
unfolding read write
read-write_other a b m h e = ground arith

pub read-alloc : (m : Fields) (h : Heap) (b : Ref) → b < h.next → read b (alloc m h).1 ≡ read b h
unfolding read write alloc
read-alloc m h b l = ground arith
