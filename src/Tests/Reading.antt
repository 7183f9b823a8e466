-- ===== src/Tests/Reading.antt =====
-- Searches and prints leave the file as it is: witnesses.
use llp_base.Common.{refl, [], ◌∷◌, codes}
use llp_base.Message.{Query}
use llp_base.Handler.{handle_query}
use llp_base.Interactive.{Surroundings, start}
use llp_base.Format.{decimal}
use llp_base.Reads.{Keeps}
use llp_base.Reads.Answers.{handle_query-Reads}
use llp_base.Reads.Spares.{Spares}
use llp_base.Reads.Session.{any_change, start-Spares}
use llp_base.Tests.Data.{fresh, empty_world}
use llp_base.Tests.Scanning.{pair}
use llp_base.Tests.Serving.{to_double}

-- {key: 5}
abbrev search : Query
search = record {
  command = 0;
  filters_list =
      record { comp_list = record { operation = 0; kv = pair (codes "key") 1 5 0 [] } ∷ [] } ∷ [];
  settings_list = [];
}

handle_query-Reads_example :
    Keeps empty_world.bytes (handle_query to_double decimal 1 [] fresh search empty_world)
handle_query-Reads_example = handle_query-Reads to_double decimal 1 [] fresh search refl empty_world

abbrev surroundings : Surroundings
surroundings = record {
  strtod = λ s. 0;
  show_double = decimal;
  behind = 0 ∷ [];
  at_value = [];
  fuel = 1;
}

start-Spares_example :
    Spares empty_world.bytes
      (λ r. any_change r.0)
      (start surroundings (λ n. fresh) (codes "print schema\nfind_by id 0\nexit\n") empty_world)
start-Spares_example =
    start-Spares surroundings (λ n. fresh) (codes "print schema\nfind_by id 0\nexit\n") empty_world
