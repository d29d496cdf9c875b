-- ===== src/Tests/Fixtures.antt =====
-- Small states that the tests run on.
use barrel_test.Base.{
  ltb, ◌==◌, if◌then◌else◌, codes, replicate, get_or-replicate, ◌%◌, refl, ap, true, ◌&&◌, [], ◌∷◌,
  arith,
}
use barrel_test.Base.Int.{negsuc}
use barrel_test.Memory.{Mem}
use barrel_test.Memory.Words.{load64}
use barrel_test.TypeInfo.{Name, TypeInfo, no_type, no_property, Bins, Layout}
use barrel_test.TypeInfo.Registry
use barrel_test.TypeInfo.Registry.{address_at}
use barrel_test.TypeInfo.Properties.{IsSized}
use barrel_test.Collection.{
  World, CollectionExtensions, no_extensions, unit_size, bucket_methods_ptr,
}
use barrel_test.Collection.Registry as ExtensionRegistry
use barrel_test.Bucket.Access.{IsBucket}
use barrel_test.Heap.{HeapService}
use barrel_test.Barrel.{Service}
use barrel_test.User.{Frame}

-- Every byte is its address, modulo 256.
abbrev pub ramp : Mem
ramp b = b % 256

abbrev pub zero_mem : Mem
zero_mem b = 0

-- The text "abc" at 100.
abbrev pub text_mem : Mem
text_mem b = if b == 100 then 97 else if b == 101 then 98 else if b == 102 then 99 else 0

abbrev pub layout : Layout
layout = record { null_bin = 65536; omegus = 500; behind = [] }

abbrev pub int_name : Name
int_name = record { address = 40; text = codes "int" }

abbrev pub bins : Bins
bins = record {
  types = replicate 32 no_type;
  type_count = 0;
  properties = replicate 64 no_property;
  property_count = 0;
  null_head = 65536;
  mem = zero_mem;
}

abbrev pub empty_world : World
empty_world = record { bins = bins; extensions = replicate 32 no_extensions; extension_count = 0 }

pub bins-IsValid : Registry.IsValid bins
bins-IsValid = record {
  slots = refl;
  room = omega arith;
  used = λ i lt. absurd (omega arith);
  unused = λ i le. ap (λ (t : TypeInfo). t.name.address) (get_or-replicate 32 i no_type);
  distinct = λ i j lt lt'. absurd (omega arith);
}

pub bins-IsSized : IsSized bins
bins-IsSized = record { slots = refl; room = omega arith }

pub empty_world-IsValid : ExtensionRegistry.IsValid empty_world
empty_world-IsValid = record {
  slots = refl;
  room = omega arith;
  distinct = λ i j lt lt'. absurd (omega arith);
}

-- One type of four bytes, and the extensions of its buckets.
abbrev pub int_type : TypeInfo
int_type = record { name = int_name; size = 4; null_loc = 0 }

abbrev pub int_extensions : CollectionExtensions
int_extensions = record { type = 1; methods = bucket_methods_ptr; mem_flags = 2 }

-- At 1000 a Bucket of three units with its chunk at 2000; at 3000 a BarrelNode of five barrels
-- from barrel 2 on, with offset 5, and no next node.
abbrev pub struct_mem : Mem
struct_mem b =
    if b == 1000
    then 1
    else if b == 1008
    then 3
    else if b == 1016
    then 208
    else if b == 1017
    then 7
    else if b == 1024
    then 12
    else if b == 3000
    then 1
    else if b == 3016
    then 5
    else if b == 3020
    then 5
    else if b == 3024
    then 2
    else if ltb 3027 b && ltb b 3032
    then 255
    else if ltb b 3040
    then 0
    else b % 256

abbrev pub world : World
world = record {
  bins = record bins { types = int_type ∷ replicate 31 no_type; type_count = 1; mem = struct_mem };
  extensions = int_extensions ∷ replicate 31 no_extensions;
  extension_count = 1;
}

abbrev pub heap : HeapService
heap = record { heap_start = 100000; heap_end = 100000; page_count = 1; local_flags = 1 }

abbrev pub service : Service
service = record {
  world = world;
  heap = heap;
  next_available = negsuc 1;
  last_physical = negsuc 0;
  started = true;
}

abbrev pub frame : Frame
frame = record { output = 4000; raw_bucket = 4100; trg_chunk = 4200; src_chunk = 4300 }

pub three_units : IsBucket world 1000 4
unfolding unit_size load64
three_units = record { size = refl; positive = omega arith; fits = omega arith; room = omega arith }
