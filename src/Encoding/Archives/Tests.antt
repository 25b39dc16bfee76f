-- ===== src/Encoding/Archives/Tests.antt =====
-- The loop over an archive that is a list of its nodes.
use libcoda_net.Base.{
  Option, none, some, [], ◌∷◌, if◌then◌else◌, Bytes, Dict, lookup, has, ascii, ◌≡◌, refl, arith,
}
use libcoda_net.Encoding.Archives.{
  Input, Gives, no_more, one_more, decode_archive, decode_archive-lookup,
}

unfoldable first_name : Dict → Option Bytes
first_name [] = none
first_name ((k, v) ∷ m) = some k

unfoldable first_value : Dict → Bytes × Dict
first_value [] = ([], [])
first_value ((k, v) ∷ m) = (v, m)

abbrev nodes : Input
nodes = record { Archive = Dict; get_node_name = first_name; next_value = first_value }

abbrev twice : Dict
twice = (ascii "a", ascii "1") ∷ (ascii "a", ascii "2") ∷ []

twice-Gives : Gives nodes twice twice
unfolding first_name first_value
twice-Gives = one_more refl refl (one_more refl refl (no_more refl))

decode_archive-lookup_example :
    (out : Dict) × (decode_archive nodes 2 twice ((ascii "b", ascii "3") ∷ []) ≡ some out)
    × ((j : Bytes)
        → lookup j out ≡ (
            if has j ((ascii "b", ascii "3") ∷ [])
            then lookup j ((ascii "b", ascii "3") ∷ [])
            else lookup j twice))
decode_archive-lookup_example =
    decode_archive-lookup nodes 2 twice twice ((ascii "b", ascii "3") ∷ []) twice-Gives
      (omega arith)
