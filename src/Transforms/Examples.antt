-- ===== src/Transforms/Examples.antt =====
-- pkg/transforms: runs of the transforms.
mod Exports
use app_functions_sdk_go.Transforms.Filter.Laws.{
  filter_by_device_name-passes, filter_by_value_descriptor-passes,
}
use app_functions_sdk_go.Runtime.Examples.{context}
use app_functions_sdk_go.AppContext.{event, Reading, Event}
use app_functions_sdk_go.Transforms.Filter.{
  filter_by_device_name, filter_by_value_descriptor, Filter,
}
use app_functions_sdk_go.Transforms.Encryption.{pkcs5_padding}
use app_functions_sdk_go.Prelude.{
  ne-nil_of_is_empty, none, false, if◌then◌else◌, IsIn, ◌⊎◌, ◌↔◌, some, true, Str, Ensures, ◌≤◌,
  ◌<◌, ◌%◌, length, arith, [], ◌∷◌, pos, ◌≡◌,
}
use app_functions_sdk_go.Transforms.Batch.Machine.{Machine, start}
use app_functions_sdk_go.Transforms.Batch.{new_batch_by_count}
use app_functions_sdk_go.Transforms.Encryption.Padding.{pkcs5_padding_lem, unpad}

-- A batch by count of two, after two calls.
abbrev held : Machine
held = record (start (new_batch_by_count (pos 2))) {
  config = record (new_batch_by_count (pos 2)) { batch_data = (1 ∷ []) ∷ [] };
  received = (1 ∷ []) ∷ [];
}

abbrev forwarded_both : Machine
forwarded_both = record (start (new_batch_by_count (pos 2))) {
  received = (1 ∷ []) ∷ (2 ∷ []) ∷ [];
  forwarded = ((1 ∷ []) ∷ (2 ∷ []) ∷ []) ∷ [];
}

pkcs5_padding_lem_example :
    (length (pkcs5_padding (1 ∷ 2 ∷ []) 16) % 16 ≡ 0)
    × (2 < length (pkcs5_padding (1 ∷ 2 ∷ []) 16))
    × (length (pkcs5_padding (1 ∷ 2 ∷ []) 16) ≤ 18)
    × (unpad (pkcs5_padding (1 ∷ 2 ∷ []) 16) ≡ 1 ∷ 2 ∷ [])
pkcs5_padding_lem_example = pkcs5_padding_lem (1 ∷ 2 ∷ []) 16 (ground arith) (ground arith)

-- Two readings, of which the filter passes one.
abbrev reading : Str → Reading
reading name = record { name = name; value = 5 ∷ []; device = 8 ∷ []; origin = pos 1 }

abbrev two_readings : Event
two_readings = record {
  id = 3 ∷ [];
  pushed = pos 0;
  device = 8 ∷ [];
  created = pos 0;
  modified = pos 0;
  origin = pos 1;
  readings = reading (6 ∷ []) ∷ reading (7 ∷ []) ∷ [];
}

abbrev device_filter : Filter
device_filter = record { filter_values = (8 ∷ []) ∷ [] }

abbrev reading_filter : Filter
reading_filter = record { filter_values = (7 ∷ []) ∷ [] }
