-- ===== src/Examples/Units.antt =====
-- The environment of the unit.
use elodin.Common.{◌≡◌, refl, List, [], ◌∷◌, arith, Bytes, codes, ok, none, if◌then◌else◌}
use elodin.Text.{
  str_eq, has_prefix, contains, contains_any, mem_byte, trim_left, trim_right, trim_space,
  trim_suffix, keep_byte, split, cut, index_byte, fields_func, fields_loop,
}
use elodin.UnitEnv.{
  is_comment, continues, valid_byte, valid_from, valid_name, environment_fields, add_assignment,
  add_fields, parse_line, parse_lines, parse, shipped,
}
use elodin.UnitEnv.Assignments.{IsEnvironment, parse-IsEnvironment}
use elodin.UnitEnv.Effective.{last_entry, or_else, is_allocator, last_entry-shipped}

abbrev unit_text : Bytes
unit_text =
    codes
      "[Unit]\n# a comment \\\nAfter=x \\\n  Environment=NO=1\n[Service]\nEnvironment=A=1 B_2=x\nExecStart=y\n"

unit_parsed : parse unit_text ≡ ok (codes "A=1" ∷ codes "B_2=x" ∷ [])
unfolding parse parse_lines parse_line environment_fields add_fields add_assignment is_comment
    continues valid_name valid_from valid_byte str_eq has_prefix contains contains_any mem_byte
    trim_left trim_right trim_space trim_suffix keep_byte split cut index_byte fields_func
    fields_loop
unit_parsed = refl

parse-IsEnvironment_example : IsEnvironment (codes "A=1" ∷ codes "B_2=x" ∷ [])
parse-IsEnvironment_example =
    parse-IsEnvironment unit_text (codes "A=1" ∷ codes "B_2=x" ∷ []) unit_parsed

abbrev inherited_env : List Bytes
inherited_env = codes "PATH=/bin" ∷ codes "MALLOC_ARENA_MAX=1" ∷ codes "A=2" ∷ []

last_entry-shipped_example :
    last_entry (codes "A") (shipped (codes "A=1" ∷ []) inherited_env)
    ≡ or_else
        (last_entry (codes "A") (codes "A=1" ∷ []))
        (if is_allocator (codes "A") then none else last_entry (codes "A") inherited_env)
last_entry-shipped_example =
    last_entry-shipped (codes "A=1" ∷ []) inherited_env (codes "A") (omega arith)
