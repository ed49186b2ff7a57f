-- ===== src/Examples/Printing.antt =====
-- Values of attributes as text.
use take_home_assignments.Prelude.{◌≡◌, refl, some, [], false, arith}
use take_home_assignments.Prelude.Int.{negsuc}
use take_home_assignments.Text.{bytes}
use take_home_assignments.Mapper.{format_d, any_value_to_string}
use take_home_assignments.Otlp.{AnyValue, int_value}
use take_home_assignments.Examples.Data.{sample_hash, sample_formats}
use take_home_assignments.Mapper.Decimal.{number, read_as, any_value_to_string_round_trip}

minus_forty_two : format_d (negsuc 41) ≡ bytes "-42"
unfolding format_d
minus_forty_two = refl

-- an attribute with the integer -42
abbrev value : AnyValue
value = record {
  is_nil = false;
  kind = int_value;
  get_string_value = [];
  get_int_value = negsuc 41;
  get_double_value = 0;
  get_bool_value = false;
}

any_value_to_string_round_trip_example :
    read_as int_value (any_value_to_string sample_hash sample_formats value)
    ≡ some (number (negsuc 41))
any_value_to_string_round_trip_example =
    any_value_to_string_round_trip sample_hash sample_formats value refl (omega arith)
