-- ===== src/Transforms/Filter.antt =====
-- pkg/transforms/filter.go
use app_functions_sdk_go.AppContext.{event, error, replies, Reply, Reading, Value, Event, Context}
pub mod Laws
use app_functions_sdk_go.Prelude.{
  str, is_empty, if◌then◌else◌, ◌||◌, ◌++◌, ◌===◌, keep, Act, pos, Bool, Str, List, [], ◌∷◌, none,
  some, true, false,
}

pub record Filter : Type 0 where
  pub filter_values : List Str

unfoldable pub new_filter : List Str → Filter
new_filter filter_values = record { filter_values = filter_values }

-- The loop over the filter values, for one device name.
pub accepted : Str → List Str → Bool
accepted device [] = false
accepted device (dev_id ∷ values) = device === dev_id || accepted device values

-- The two nested loops: for each filter value, the readings of that name.
pub select_readings : List Str → List Reading → List Reading
select_readings [] readings = []
select_readings (filter_id ∷ values) readings =
    keep (λ (reading : Reading). reading.name === filter_id) readings
    ++ select_readings values readings

-- The zero value of `models.Event`.
abbrev pub no_event : Event
no_event = record {
  id = [];
  pushed = pos 0;
  device = [];
  created = pos 0;
  modified = pos 0;
  origin = pos 0;
  readings = [];
}

module _ {W : Type 0} where
  device_reply : Filter → Context W → Event → Act W (Reply W)
  unfolding accepted
  device_reply f context e =
      if is_empty f.filter_values
      then replies context true (some (event e))
      else if accepted e.device f.filter_values
      then replies context true (some (event e))
      else replies context false none

  unfoldable pub filter_by_device_name : Filter → Context W → List Value → Act W (Reply W)
  unfolding device_reply
  filter_by_device_name f context [] =
      replies context false (some (error (str "no Event Received")))
  filter_by_device_name f context (event e ∷ _) = device_reply f context e
  filter_by_device_name f context (_ ∷ _) =
      replies context false (some (error (str "type received is not an Event")))

  filtered_reply : Context W → Event → Act W (Reply W)
  filtered_reply context aux_event =
      if is_empty aux_event.readings
      then replies context false (some (event no_event))
      else replies context true (some (event aux_event))

  -- A new event: the id of the event is not copied.
  descriptor_reply : Filter → Context W → Event → Act W (Reply W)
  unfolding filtered_reply select_readings
  descriptor_reply f context e =
      if is_empty f.filter_values
      then replies context true (some (event e))
      else filtered_reply context
          (record e { id = []; readings = select_readings f.filter_values e.readings })

  unfoldable pub filter_by_value_descriptor : Filter → Context W → List Value → Act W (Reply W)
  unfolding descriptor_reply
  filter_by_value_descriptor f context [] =
      replies context false (some (error (str "no Event Received")))
  filter_by_value_descriptor f context (event e ∷ _) = descriptor_reply f context e
  filter_by_value_descriptor f context (_ ∷ _) =
      replies context false (some (error (str "type received is not an Event")))
