-- ===== src/Spaces/Examples.antt =====
-- The theorem at a child whose order is not valid.
use mtxclient.Shared.{◌≡◌, refl, true, false, some, [], ◌∷◌}
use mtxclient.Samples.{sample_json, sample_writer, sample_writer-laws}
use mtxclient.Spaces.{
  Parent, Child, is_valid_order_str, are_printable, read_parent, write_parent, read_child,
  write_child,
}
use mtxclient.Spaces.Roundtrip.{kept_parent, kept_child, read_child-write_child}

abbrev parent : Parent
parent = record { via = some ("example.org" ∷ []); canonical = true }

abbrev child : Child
child = record { via = some ("example.org" ∷ []); order = some "tab\t"; suggested = true }

order_run :
    (is_valid_order_str "tab\t" ≡ false)
    × (is_valid_order_str "a~ z" ≡ true)
    × (is_valid_order_str "" ≡ true)
unfolding is_valid_order_str are_printable
order_run = (refl, refl, refl)

read_child-write_child_example :
    (read_parent sample_json (write_parent sample_json sample_writer parent)
      ≡ some (kept_parent parent.via parent.canonical))
    × (read_child sample_json (write_child sample_json sample_writer child)
        ≡ some (kept_child child.via child.order child.suggested))
read_child-write_child_example =
    read_child-write_child sample_json sample_writer sample_writer-laws parent child
