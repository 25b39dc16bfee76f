-- ===== src/Encoding/Archives.antt =====
-- `encoding::json` and `encoding::xml`, which write and read maps through an archive of cereal, a
-- third-party library: an archive is what its calls answer. Their texts are passed on as they are.
mod Tests
use libcoda_net.Base.{
  ℕ, zero, suc, ◌≤◌, Option, none, some, List, [], ◌∷◌, if◌then◌else◌, Bytes, Dict, lookup, assign,
  has, insert_all, length, ◌≡◌, ◌∙◌, ap, refl, arith,
}
use libcoda_net.Http.Client.{insert_all-lookup}

-- `encode` and `decode` of a text.
unfoldable pub encode_text : Bytes → Bytes
encode_text from = from

unfoldable pub decode_text : Bytes → Bytes
decode_text from = from

-- An output archive: a named value that is put into it, and the text that it has written so far.
pub record Output : Type 1 where
  pub Archive : Type 0
  pub put : Bytes → Bytes → Archive → Archive
  pub text : Archive → Bytes

-- An input archive: `getNodeName`, where `none` is the null pointer, and the next value.
pub record Input : Type 1 where
  pub Archive : Type 0
  pub get_node_name : Archive → Option Bytes
  pub next_value : Archive → Bytes × Archive

module _ (O : Output) where
  unfoldable pub put_all : Dict → O.Archive → O.Archive
  put_all [] archive = archive
  put_all ((k, v) ∷ m) archive = put_all m (O.put k v archive)

  -- `encode` of a map, which takes the text while the archive is open.
  unfoldable pub encode_archive : O.Archive → Dict → Bytes
  unfolding put_all
  encode_archive archive from = O.text (put_all from archive)

module _ (I : Input) where
  -- The loop of `decode`, on fuel, behind a call of `getNodeName`. `none` is the end of the fuel.
  unfoldable pub decode_nodes : ℕ → Option Bytes → I.Archive → Dict → Option Dict
  decode_nodes fuel none archive to = some to
  decode_nodes zero (some key) archive to = none
  decode_nodes (suc fuel) (some key) archive to =
      let (value, archive') = I.next_value archive in
      decode_nodes fuel (I.get_node_name archive') archive'
        (if has key to then to else assign key value to)

  unfoldable pub decode_archive : ℕ → I.Archive → Dict → Option Dict
  unfolding decode_nodes
  decode_archive fuel archive to = decode_nodes fuel (I.get_node_name archive) archive to

  -- The archive gives these names and values, and then no name.
  pub data Gives : I.Archive → Dict → Type 0 where
    no_more : {a : I.Archive} → I.get_node_name a ≡ none → Gives a []
    one_more :
        {a : I.Archive} {k v : Bytes} {m : Dict}
        → I.get_node_name a ≡ some k
        → (I.next_value a).0 ≡ v
        → Gives (I.next_value a).1 m
        → Gives a ((k, v) ∷ m)

  decode_archive-insert_all :
      (fuel : ℕ) (a : I.Archive) (m to : Dict)
      → Gives a m
      → length m ≤ fuel
      → decode_archive fuel a to ≡ some (insert_all m to)
  unfolding decode_archive insert_all
  decode_archive-insert_all fuel a [] to (no_more e) l = ap (λ n. decode_nodes fuel n a to) e
  decode_archive-insert_all zero a ((k, v) ∷ m) to g l = absurd (omega (arith, l))
  decode_archive-insert_all (suc fuel) a ((k, v) ∷ m) to (one_more e h g) l =
      ap (λ n. decode_nodes (suc fuel) n a to) e
      ∙ ap
          (λ x.
            decode_nodes fuel (I.get_node_name (I.next_value a).1) (I.next_value a).1
              (if has k to then to else assign k x to))
          h
      ∙ decode_archive-insert_all fuel (I.next_value a).1 m (if has k to then to else assign k v to)
          g (omega (arith, l))

  -- Decoding an archive that gives names and values, with as many rounds, ends: a name that the map had
  -- keeps its value, and any other has the first value that the archive gives for it.
  pub decode_archive-lookup :
      (fuel : ℕ) (a : I.Archive) (m to : Dict)
      → Gives a m
      → length m ≤ fuel
      → (out : Dict) × (decode_archive fuel a to ≡ some out)
        × ((j : Bytes) → lookup j out ≡ (if has j to then lookup j to else lookup j m))
  decode_archive-lookup fuel a m to g l =
      (insert_all m to, decode_archive-insert_all fuel a m to g l, λ j. insert_all-lookup j m to)
