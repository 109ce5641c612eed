-- ===== src/Printer/Extras/Examples.antt =====
-- A location put where there was none.
use protoreflect.Common.{◌≡◌, ◌≢◌, refl, true, some, [], ◌∷◌, All, arith}
use protoreflect.SourceLoc.{SourcePath, SourceLocation, SourceLocations, zero_location, is_zero}
use protoreflect.Printer.Extras.{
  ExtraLocations, extra_by_path, extra_lookup, or_zero, put_if_absent,
}
use protoreflect.Printer.Extras.Keys.{IsPattern}
use protoreflect.Printer.Extras.Put.{put_if_absent_elsewhere}

abbrev no_locations : SourceLocations
no_locations = record { len = 0; get = λ _. zero_location; by_path = λ _. zero_location }

abbrev none_extra : ExtraLocations
none_extra = record { base = no_locations; extras_by_path = []; extras = [] }

abbrev first_message : SourcePath
first_message = 4 ∷ 0 ∷ []

abbrev second_message : SourcePath
second_message = 4 ∷ 1 ∷ []

abbrev somewhere : SourceLocation
somewhere = record zero_location {
  path = some first_message;
  start_line = 3;
  end_line = 3;
  end_column = 9;
}

first-absent : is_zero (extra_by_path none_extra first_message) ≡ true
unfolding is_zero extra_by_path extra_lookup or_zero
first-absent = refl

first-IsPattern : All IsPattern first_message
first-IsPattern = (omega arith, (omega arith, tt))

second-IsPattern : All IsPattern second_message
second-IsPattern = (omega arith, (omega arith, tt))

first-differs : first_message ≢ second_message
first-differs e = absurd (cc e)

put_if_absent_elsewhere_example :
    extra_by_path (put_if_absent none_extra first_message somewhere) second_message
    ≡ extra_by_path none_extra second_message
put_if_absent_elsewhere_example =
    put_if_absent_elsewhere none_extra first_message second_message somewhere first-IsPattern
      second-IsPattern first-differs
